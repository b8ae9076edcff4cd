-- ===== src/Core/Status.antt =====
-- internal/core/types.go: profiles, active connections and the status. Of the structs the fields
-- that the modelled code reads are kept. `unset` is the empty string of a string type.
use better_nm.Prelude.{
  String, List, [], ◌∷◌, Option, some, Bool, ◌&&◌, not, str_eq, if◌then◌else◌, ◌+s◌,
}

pub data ProfileType : Type 0 where
  wifi ethernet wireguard vpn bridge other unset : ProfileType

-- `string(t)`
abbrev pub profile_type_name : ProfileType → String
profile_type_name wifi = "wifi"
profile_type_name ethernet = "ethernet"
profile_type_name wireguard = "wireguard"
profile_type_name vpn = "vpn"
profile_type_name bridge = "bridge"
profile_type_name other = "other"
profile_type_name unset = ""

abbrev pub is_wifi : ProfileType → Bool
is_wifi wifi = Bool.true
is_wifi _ = Bool.false

pub record Profile : Type 0 where
  pub uuid : String
  pub name : String
  pub type : ProfileType
  pub ssid : String

pub data ActiveState : Type 0 where
  activating activated deactivating deactivated unknown unset : ActiveState

pub record ActiveConnection : Type 0 where
  pub profile_uuid : String
  pub profile_name : String
  pub devices : List String
  pub state : ActiveState
  pub ipv4 : List String
  pub ipv6 : List String
  pub gateway4 : String

pub data Connectivity : Type 0 where
  unknown none portal limited full unset : Connectivity

-- `string(c)`
abbrev pub connectivity_name : Connectivity → String
connectivity_name unknown = "unknown"
connectivity_name Connectivity.none = "none"
connectivity_name portal = "portal"
connectivity_name limited = "limited"
connectivity_name full = "full"
connectivity_name unset = ""

pub record Status : Type 0 where
  pub connectivity : Connectivity
  pub primary : Option ActiveConnection

-- The loop of `NetworkKey` over the profiles.
unfoldable pub profile_key : String → List Profile → String
profile_key uuid [] = "conn:" +s uuid
profile_key uuid (p ∷ ps) =
    if str_eq p.uuid uuid
    then if is_wifi p.type && not (str_eq p.ssid "")
      then "wifi:" +s p.ssid
      else profile_type_name p.type +s (":" +s p.uuid)
    else profile_key uuid ps

unfoldable pub network_key : Option ActiveConnection → List Profile → String
unfolding profile_key
network_key Option.none profiles = ""
network_key (some primary) profiles = profile_key primary.profile_uuid profiles

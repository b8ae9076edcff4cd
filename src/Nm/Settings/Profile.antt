-- ===== src/Nm/Settings/Profile.antt =====
-- internal/nm/settings.go: profiles from settings, and the settings of new profiles.
use better_nm.Prelude.{
  ℕ, String, List, [], ◌∷◌, Bool, true, ◌&&◌, ◌||◌, Option, none, some, Assoc, lookup, str_eq,
  if◌then◌else◌,
}
use better_nm.Core.Device.{WifiSecurity}
use better_nm.Core.Status.{Profile}
use better_nm.Vpn.WireGuard.Spec.{WireGuardPeer}
use better_nm.Nm.Consts.{
  setting_connection, setting_wifi, setting_wifi_security, setting_ipv4, setting_ipv6, setting_vpn,
  setting_wireguard,
}
use better_nm.Nm.Mapping.{profile_type, profile_security}
use better_nm.Nm.Settings.Ip.{Netip, IpConfig, decode_ip_config}
use better_nm.Nm.Texts.{has_suffix}
use better_nm.Nm.Variant.{
  Value, Props, SettingsDict, section, as_str, as_u32, as_strs, as_bytes, value_at, v_str, v_bool,
  v_u32, v_u64, v_strs, v_str_map, v_dicts,
}

abbrev is_ip : String → Bool
is_ip name = str_eq name setting_ipv4 || str_eq name setting_ipv6

-- The inner loop of `sanitizeForUpdate`.
unfoldable sanitize_section : String → Props → Props
sanitize_section name [] = []
sanitize_section name ((k, v) ∷ rest) =
    let kept = sanitize_section name rest in
    if is_ip name && (str_eq k "addresses" || str_eq k "routes") then kept else (k, v) ∷ kept

unfoldable sanitize_for_update : SettingsDict → SettingsDict
unfolding sanitize_section
sanitize_for_update [] = []
sanitize_for_update ((name, sec) ∷ rest) =
    (name, sanitize_section name sec) ∷ sanitize_for_update rest

-- The non-secret part of a wireguard setting; the public key stays empty.
pub record WireGuardSetting : Type 0 where
  pub listen_port : ℕ
  pub fw_mark : ℕ
  pub mtu : ℕ
  pub peers : List WireGuardPeer

unfoldable pub decode_peers : List (Assoc Value) → List WireGuardPeer
unfolding as_str as_u32 as_strs
decode_peers [] = []
decode_peers (peer ∷ peers) =
    record {
      public_key = as_str (lookup "public-key" peer);
      preshared_key = "";
      endpoint = as_str (lookup "endpoint" peer);
      allowed_ips = as_strs (lookup "allowed-ips" peer);
      persistent_keepalive = as_u32 (lookup "persistent-keepalive" peer);
    }
    ∷ decode_peers peers

unfoldable pub decode_wireguard_setting : Props → WireGuardSetting
unfolding v_u32 v_dicts decode_peers
decode_wireguard_setting wg = record {
  listen_port = v_u32 wg "listen-port";
  fw_mark = v_u32 wg "fwmark";
  mtu = v_u32 wg "mtu";
  peers = decode_peers (v_dicts wg "peers");
}

-- A profile with the fields that the rest of the model does not read.
record SavedProfile : Type 0 where
  base : Profile
  raw_type : String
  interface_name : String
  autoconnect : Bool
  security : Option WifiSecurity
  vpn_service_type : String
  vpn_data : Assoc String
  timestamp : ℕ  -- in seconds
  wireguard : Option WireGuardSetting
  ipv4 : Option IpConfig
  ipv6 : Option IpConfig
  permissions : List String
  filename : String
  version_id : ℕ
  active : Bool
  nm_path : String

-- The loop over `vpn.data`.
unfoldable without_flags : Assoc String → Assoc String
unfolding has_suffix
without_flags [] = []
without_flags ((k, v) ∷ rest) =
    let kept = without_flags rest in if has_suffix k "-flags" then kept else (k, v) ∷ kept

record ConnMeta : Type 0 where
  filename : String
  version_id : ℕ

abbrev or_true : Option Bool → Bool
or_true none = true
or_true (some b) = b

module _ ⦃N : Netip⦄ (ssid_text : List ℕ → String) (encode : String → List ℕ) where
  unfoldable decode_profile : String → SettingsDict → ConnMeta → Bool → SavedProfile
  unfolding section v_str v_bool v_u64 v_strs v_str_map value_at as_bytes profile_type
      profile_security without_flags decode_wireguard_setting decode_ip_config
  decode_profile path s meta active =
      let conn = section setting_connection s in
      let raw = v_str conn "type" in
      let vpn = section setting_vpn s in
      record {
        base = record {
          uuid = v_str conn "uuid";
          name = v_str conn "id";
          type = profile_type raw;
          ssid = elim (lookup setting_wifi s) [
            | none ↦ ""
            | some w ↦ ssid_text (as_bytes encode (value_at "ssid" w))
          ];
        };
        raw_type = raw;
        interface_name = v_str conn "interface-name";
        autoconnect = or_true (v_bool conn "autoconnect");
        security = elim (lookup setting_wifi s) [
          | none ↦ none
          | some w ↦ some (profile_security (v_str (section setting_wifi_security s) "key-mgmt"))
        ];
        vpn_service_type = v_str vpn "service-type";
        vpn_data = without_flags (v_str_map vpn "data");
        timestamp = v_u64 conn "timestamp";
        wireguard = elim (lookup setting_wireguard s) [
          | none ↦ none
          | some wg ↦ some (decode_wireguard_setting wg)
        ];
        ipv4 = elim (lookup setting_ipv4 s) [
          | none ↦ none
          | some ip ↦ some (decode_ip_config ip 4)
        ];
        ipv6 = elim (lookup setting_ipv6 s) [
          | none ↦ none
          | some ip ↦ some (decode_ip_config ip 6)
        ];
        permissions = v_strs conn "permissions";
        filename = meta.filename;
        version_id = meta.version_id;
        active = active;
        nm_path = path;
      }

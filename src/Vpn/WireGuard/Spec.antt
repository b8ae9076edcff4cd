-- ===== src/Vpn/WireGuard/Spec.antt =====
-- The types of the parser and of the profile that it fills (internal/core/types.go), and the keys of
-- a file. The parsers of the standard library that it calls are an instance argument.
use better_nm.Prelude.{ℕ, String, List, Bool, ◌||◌, Option, none, some, str_eq, if◌then◌else◌}
use better_nm.Vpn.WireGuard.Text.{lower_text}

-- `netip.Addr` and `netip.Prefix`, with their `String()`
pub record Addr : Type 0 where
  pub text : String
  pub bit_len : ℕ

pub record Prefix : Type 0 where
  pub text : String
  pub bits : ℕ
  pub is4 : Bool

-- `netip.ParsePrefix`, `netip.ParseAddr`, `netip.PrefixFrom`, `net.SplitHostPort`, and
-- `strconv.ParseInt` with base 0, whose negative results are left out.
pub record Parsers : Type 0 where
  pub read_prefix : String → Option Prefix
  pub read_addr : String → Option Addr
  pub prefix_from : Addr → ℕ → Prefix
  pub split_host_port : String → Option (String × String)
  pub read_int : String → Option ℕ

pub record WireGuardPeer : Type 0 where
  pub public_key : String
  pub preshared_key : String
  pub endpoint : String
  pub allowed_ips : List String
  pub persistent_keepalive : ℕ

pub record WireGuardSpec : Type 0 where
  pub name : String
  pub interface_name : String
  pub private_key : String
  pub listen_port : ℕ
  pub fw_mark : ℕ
  pub mtu : ℕ
  pub addresses : List String
  pub dns : List String
  pub dns_search : List String
  pub peers : List WireGuardPeer
  pub auto_default_route : Option Bool
  pub dropped : List String  -- `Unsupported`

pub data Section : Type 0 where
  outside interface_section peer_section : Section

-- The variables of `ParseConf`.
pub record Parse : Type 0 where
  pub spec : WireGuardSpec
  pub section : Section
  pub cur : Option WireGuardPeer
  pub saw_iface : Bool
  pub table : String
  pub default_v4 : Bool
  pub default_v6 : Bool
  pub unsupported : List String

pub data Reason : Type 0 where
  malformed_header unknown_section no_equals bad_value unknown_key before_any_section : Reason

-- A parse error with its line or its peer, or a read error.
pub data ConfError : Type 0 where
  at_line : ℕ → Reason → ConfError
  unreadable : ConfError
  no_interface : ConfError
  no_private_key : ConfError
  no_public_key : ℕ → ConfError

-- What a line does; `nil_peer` is a write through a nil `cur`, which panics.
pub data Step : Type 0 where
  next : Parse → Step
  refused : Reason → Step
  nil_peer : Step

pub data Result : Type 0 where
  parsed : WireGuardSpec → Result
  invalid_conf : ConfError → Result
  panic : Result

unfoldable pub same_key_word : String → String → Bool
unfolding lower_text
same_key_word word s = str_eq word (lower_text s)

pub data InterfaceKey : Type 0 where
  private_key_of address_of dns_of listen_port_of fw_mark_of mtu_of table_of hook_of other :
      InterfaceKey

unfoldable pub interface_key : String → InterfaceKey
unfolding same_key_word
interface_key key =
    if same_key_word "privatekey" key
    then private_key_of
    else if same_key_word "address" key
    then address_of
    else if same_key_word "dns" key
    then dns_of
    else if same_key_word "listenport" key
    then listen_port_of
    else if same_key_word "fwmark" key
    then fw_mark_of
    else if same_key_word "mtu" key
    then mtu_of
    else if same_key_word "table" key
    then table_of
    else if same_key_word "preup" key
        || same_key_word "postup" key
        || same_key_word "predown" key
        || same_key_word "postdown" key
        || same_key_word "saveconfig" key
    then hook_of
    else other

pub data PeerKey : Type 0 where
  public_key_of preshared_key_of endpoint_of allowed_ips_of keepalive_of unknown : PeerKey

unfoldable pub peer_key : String → PeerKey
unfolding same_key_word
peer_key key =
    if same_key_word "publickey" key
    then public_key_of
    else if same_key_word "presharedkey" key
    then preshared_key_of
    else if same_key_word "endpoint" key
    then endpoint_of
    else if same_key_word "allowedips" key
    then allowed_ips_of
    else if same_key_word "persistentkeepalive" key
    then keepalive_of
    else unknown

-- The case that a bad value ends and a good one continues.
abbrev pub with {ℓ} : {A : Type ℓ} → Option A → (A → Step) → Step
with none f = refused bad_value
with (some a) f = f a

abbrev pub with_peer : Option WireGuardPeer → (WireGuardPeer → Step) → Step
with_peer none f = nil_peer
with_peer (some p) f = f p

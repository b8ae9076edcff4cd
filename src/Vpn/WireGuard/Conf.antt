-- ===== src/Vpn/WireGuard/Conf.antt =====
-- `ParseConf`: its loop over the lines and what stands behind it. The half-filled profile beside an
-- error is left out.
use Prim.Native.Char.{code}
use better_nm.Prelude.{
  ℕ, ◌+◌, String, List, [], ◌∷◌, ◌++◌, Bool, true, false, not, ◌||◌, Option, none, some, str_eq,
  ◌==◌, if◌then◌else◌, ◌+s◌,
}
use better_nm.Vpn.WireGuard.Text.{trim, before, cut, drop_last, iface_name, profile_name}
use better_nm.Vpn.WireGuard.Spec.{
  Parsers, WireGuardPeer, WireGuardSpec, Section, outside, interface_section, peer_section, Parse,
  malformed_header, unknown_section, no_equals, before_any_section, at_line, unreadable,
  no_interface, no_private_key, no_public_key, Step, next, refused, nil_peer, Result, parsed,
  invalid_conf, panic, same_key_word,
}
use better_nm.Vpn.WireGuard.Lines.{interface_line, peer_line}

abbrev pub no_peer : WireGuardPeer
no_peer = record {
  public_key = "";
  preshared_key = "";
  endpoint = "";
  allowed_ips = [];
  persistent_keepalive = 0;
}

unfoldable pub flush_peer : Parse → Parse
flush_peer s = elim s.cur [
  | none ↦ s
  | some p ↦ record s { spec = record s.spec { peers = s.spec.peers ++ (p ∷ []) }; cur = none }
]

-- The text between the brackets of a section header; none is a malformed one.
unfoldable pub header_line : Option String → Parse → Step
unfolding flush_peer same_key_word
header_line none s = refused malformed_header
header_line (some name) s =
    if same_key_word "interface" (trim name)
    then next (record (flush_peer s) { section = interface_section; saw_iface = true })
    else if same_key_word "peer" (trim name)
    then next (record (flush_peer s) { section = peer_section; cur = some no_peer })
    else refused unknown_section

-- The `switch` over the section
unfoldable pub key_in : ⦃P : Parsers⦄ → Section → String → String → Parse → Step
unfolding interface_line peer_line
key_in outside key value s = refused before_any_section
key_in interface_section key value s = interface_line key value s
key_in peer_section key value s = peer_line key value s

-- A line without its comment and the space around it.
unfoldable pub conf_line : ⦃P : Parsers⦄ → String → Parse → Step
unfolding header_line key_in
conf_line String.[] s = next s
conf_line (String.◌∷◌ c rest) s =
    if code c == 91 then header_line (drop_last 93 rest) s else elim (cut 61 (String.◌∷◌ c rest)) [
      | none ↦ refused no_equals
      | some (key, value) ↦ key_in s.section (trim key) (trim value) s
    ]

unfoldable pub parse_line : ⦃P : Parsers⦄ → String → Parse → Step
unfolding conf_line
parse_line line s = conf_line (trim (before 35 line)) s

-- Behind the loop: the checks and the default route.
unfoldable pub missing_key : ℕ → List WireGuardPeer → Option ℕ
missing_key i [] = none
missing_key i (p ∷ rest) = if str_eq p.public_key "" then some (i + 1) else missing_key (i + 1) rest

unfoldable pub route_spec : Parse → WireGuardSpec
route_spec s =
    if str_eq s.table "off"
    then record s.spec { auto_default_route = some false; dropped = s.unsupported }
    else if str_eq s.table "" || str_eq s.table "auto" || str_eq s.table "main"
    then record s.spec {
      auto_default_route =
          if s.default_v4 || s.default_v6 then some true else s.spec.auto_default_route;
      dropped = s.unsupported;
    }
    else record s.spec {
      auto_default_route = some false;
      dropped = s.unsupported ++ (("Table = " +s s.table) ∷ []);
    }

unfoldable pub finish : Parse → Result
unfolding missing_key route_spec
finish s =
    if not s.saw_iface
    then invalid_conf no_interface
    else if str_eq s.spec.private_key ""
    then invalid_conf no_private_key
    else elim (missing_key 0 s.spec.peers) [
      | some i ↦ invalid_conf (no_public_key i)
      | none ↦ parsed (route_spec s)
    ]

-- The line with number `n` ends the loop or continues it.
abbrev pub follow : ℕ → Step → (Parse → Result) → Result
follow n (next s) f = f s
follow n (refused why) f = invalid_conf (at_line n why)
follow n nil_peer f = panic

-- The loop over the lines that the scanner delivers; `ok` is false if it ends with an error.
unfoldable pub parse_lines : ⦃P : Parsers⦄ → ℕ → List String → Bool → Parse → Result
unfolding parse_line finish flush_peer
parse_lines n [] ok s = if ok then finish (flush_peer s) else invalid_conf unreadable
parse_lines n (line ∷ rest) ok s = follow (n + 1) (parse_line line s) (parse_lines (n + 1) rest ok)

unfoldable pub new_parse : String → Parse
unfolding profile_name iface_name
new_parse name = record {
  spec = record {
    name = profile_name name;
    interface_name = iface_name (profile_name name);
    private_key = "";
    listen_port = 0;
    fw_mark = 0;
    mtu = 0;
    addresses = [];
    dns = [];
    dns_search = [];
    peers = [];
    auto_default_route = none;
    dropped = [];
  };
  section = outside;
  cur = none;
  saw_iface = false;
  table = "";
  default_v4 = false;
  default_v6 = false;
  unsupported = [];
}

unfoldable pub parse_conf : ⦃P : Parsers⦄ → String → List String → Bool → Result
unfolding parse_lines new_parse
parse_conf name lines ok = parse_lines 0 lines ok (new_parse name)

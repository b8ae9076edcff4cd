-- ===== src/Tests/Vpn.antt =====
-- The registry and the importer at concrete inputs.
use mathlib.Core.List.{Perm}
use better_nm.Prelude.{
  Bool-cases, inl, inr, arith, String, List, [], ◌∷◌, Bool, true, false, Option, none, some, lookup,
  ◌+s◌, ◌≡◌, refl, str_eq, if◌then◌else◌,
}
use better_nm.Core.Errors.{plain, typed, not_found}
use better_nm.Core.Vpn.{Vpn, VpnBackend, VpnState}
use better_nm.Vpn.Registry.{
  listed, failed, Adapter, Registry, collect, list, connect, contribution, adopt, unavailable,
}
use better_nm.Vpn.Registry.Listing.{ConnectedFirst, list_total}
use better_nm.Vpn.Registry.Routing.{has_id, unlisted_refused}
use better_nm.Vpn.WireGuard.Spec.{Prefix, Parsers, Result, parsed}
use better_nm.Vpn.WireGuard.Text.{before, is_space, drop_last, cut, is_key, split_list, parse_uint}
use better_nm.Vpn.WireGuard.Conf.{parse_conf}
use better_nm.Vpn.WireGuard.Lines.{parse_prefix, is_default_text}
use better_nm.Vpn.WireGuard.Routes.{RoutesRight, parse_conf-RoutesRight}
use better_nm.Vpn.WireGuard.Defaults.{Reprints}
use better_nm.Vpn.WireGuard.Valid.{parse_conf-IsResult}
use better_nm.Vpn.WireGuard.Values.{IsResult}

abbrev tunnel : Vpn
tunnel = record {
  id = "wg:1";
  name = "Tunnel";
  backend = VpnBackend.unset;
  kind = "WireGuard";
  state = VpnState.connected;
  detail = "";
  error = "";
}

abbrev wireguard : Adapter
wireguard = record {
  backend = VpnBackend.wireguard;
  listing = listed (tunnel ∷ []);
  connect = λ id. none;
  disconnect = λ id. none;
}

abbrev tailscale : Adapter
tailscale = record {
  backend = VpnBackend.tailscale;
  listing = failed "not running";
  connect = λ id. some (plain "not running");
  disconnect = λ id. some (plain "not running");
}

abbrev registry : Registry
registry = record { adapters = tailscale ∷ (wireguard ∷ []); by_id = [] }

list_total_example :
    (vpns : List Vpn) × ((list false registry).1 ≡ some vpns)
    × Perm vpns (collect registry.adapters)
    × ConnectedFirst vpns
list_total_example = list_total registry

strange_unlisted : has_id "wg:2" (collect registry.adapters) ≡ false
unfolding collect contribution adopt unavailable
strange_unlisted = refl

strange_unknown : lookup "wg:2" registry.by_id ≡ none
unfolding lookup
strange_unknown = refl

unlisted_refused_example : connect false (plain "deadline exceeded") "wg:2" registry ≡ (
  (list false registry).0,
  some
      (typed not_found "run `bnm vpn` to list them" ("vpn: no VPN with id \"" +s ("wg:2" +s "\""))),
)
unlisted_refused_example =
    unlisted_refused registry "wg:2" (plain "deadline exceeded") strange_unlisted strange_unknown

-- Parsers that read two prefixes and one endpoint.
abbrev read_prefix : String → Option Prefix
read_prefix s =
    if str_eq s "0.0.0.0/0"
    then some (record { text = s; bits = 0; is4 = true })
    else if str_eq s "10.0.0.2/32"
    then some (record { text = s; bits = 32; is4 = true })
    else none

instance abbrev sample_parsers : Parsers
sample_parsers = record {
  read_prefix = read_prefix;
  read_addr =
      λ s. if str_eq s "1.1.1.1" then some (record { text = "1.1.1.1"; bit_len = 32 }) else none;
  prefix_from = λ a n. record { text = a.text +s "/32"; bits = n; is4 = true };
  split_host_port =
      λ s. if str_eq s "vpn.example.org:51820" then some ("vpn.example.org", "51820") else none;
  read_int = λ s. none;
}

abbrev conf : List String
conf =
    "[Interface]" ∷ "PrivateKey = QUJDREVGR0hJSktMTU5PUFFSU1RVVldYWVphYmNkZWY= # mine"
    ∷ "Address = 10.0.0.2/32" ∷ "DNS = 1.1.1.1, example.org" ∷ "ListenPort = 51820" ∷ "FwMark = off"
    ∷ "" ∷ "[Peer]" ∷ "PublicKey = QUJDREVGR0hJSktMTU5PUFFSU1RVVldYWVphYmNkZWY="
    ∷ "Endpoint = vpn.example.org:51820" ∷ "AllowedIPs = 0.0.0.0/0" ∷ "PersistentKeepalive = 25"
    ∷ []

parse_conf-IsResult_example : IsResult (parse_conf "/etc/wireguard/my tunnel.conf" conf true)
parse_conf-IsResult_example = parse_conf-IsResult "/etc/wireguard/my tunnel.conf" conf true

-- The file is accepted, with its default route.
abbrev accepted : Result → Option Bool
accepted (parsed w) = w.auto_default_route
accepted _ = none

conf-accepted : accepted (parse_conf "/etc/wireguard/my tunnel.conf" conf true) ≡ some true
unfolding parse_conf before is_space drop_last cut is_key split_list parse_uint
conf-accepted = refl

sample_parsers-Reprints : Reprints
unfolding parse_prefix is_default_text
sample_parsers-Reprints s p e = elim (Bool-cases (str_eq s "0.0.0.0/0")) [
  | inl whole ↦ ground (arith, e, whole)
  | inr other ↦ elim (Bool-cases (str_eq s "10.0.0.2/32")) [
    | inl host ↦ ground (arith, e, other, host)
    | inr bare ↦ elim (Bool-cases (str_eq s "1.1.1.1")) [
      | inl address ↦
          let read : p ≡ record { text = "1.1.1.1/32"; bits = 32; is4 = true } =
            ground (arith, e, other, bare, address) in
          rw read refl
      | inr strange ↦ absurd (ground (arith, e, other, bare, strange))
    ]
  ]
]

parse_conf-RoutesRight_example : RoutesRight (parse_conf "/etc/wireguard/my tunnel.conf" conf true)
parse_conf-RoutesRight_example =
    parse_conf-RoutesRight sample_parsers-Reprints "/etc/wireguard/my tunnel.conf" conf true

-- ===== src/Vpn/WireGuard/Lines.antt =====
-- What one line with a key does, in an `[Interface]` and in a `[Peer]` section.
use better_nm.Prelude.{
  ℕ, String, List, [], ◌∷◌, ◌++◌, Bool, false, not, ◌&&◌, ◌||◌, Option, none, some, str_eq, leb,
  ◌==◌, if◌then◌else◌, any, map, ◌+s◌,
}
use better_nm.Vpn.WireGuard.Text.{split_list, parse_uint, is_key, lower_text}
use better_nm.Vpn.WireGuard.Spec.{
  Addr, Prefix, Parsers, WireGuardSpec, Parse, bad_value, unknown_key, Step, next, refused,
  InterfaceKey, private_key_of, address_of, dns_of, listen_port_of, fw_mark_of, mtu_of, table_of,
  hook_of, other, interface_key, PeerKey, public_key_of, preshared_key_of, endpoint_of,
  allowed_ips_of, keepalive_of, unknown, peer_key, with, with_peer,
}

-- One value of the key `dns`: an address is a server, and all else a search domain.
unfoldable pub add_server : Option Addr → String → WireGuardSpec → WireGuardSpec
add_server (some ip) d w = record w { dns = w.dns ++ (ip.text ∷ []) }
add_server none d w = record w { dns_search = w.dns_search ++ (d ∷ []) }

unfoldable pub cons_prefix : Option Prefix → Option (List Prefix) → Option (List Prefix)
cons_prefix none ps = none
cons_prefix (some p) none = none
cons_prefix (some p) (some ps) = some (p ∷ ps)

module _ ⦃P : Parsers⦄ where
  unfoldable pub parse_prefix : String → Option Prefix
  parse_prefix s = elim (P.read_prefix s) [
    | some p ↦ some p
    | none ↦ elim (P.read_addr s) [ none ↦ none | some ip ↦ some (P.prefix_from ip ip.bit_len) ]
  ]

  -- The loops over the values of `address` and `allowedips`: the first bad one ends them.
  unfoldable pub parse_prefixes : List String → Option (List Prefix)
  unfolding parse_prefix cons_prefix
  parse_prefixes [] = some []
  parse_prefixes (s ∷ rest) = cons_prefix (parse_prefix s) (parse_prefixes rest)

  -- `validateEndpoint` succeeds.
  unfoldable pub is_endpoint : String → Bool
  is_endpoint s = elim (P.split_host_port s) [
    | none ↦ false
    | some (host, port) ↦
        not (str_eq host "")
        && elim (parse_uint port 65535) [ none ↦ false | some n ↦ not (str_eq port "0") ]
  ]

  -- The loop of the key `dns`.
  unfoldable pub add_dns : List String → WireGuardSpec → WireGuardSpec
  unfolding add_server
  add_dns [] w = w
  add_dns (d ∷ rest) w = add_dns rest (add_server (P.read_addr d) d w)

  unfoldable pub parse_mark : String → Option ℕ
  unfolding lower_text
  parse_mark value = if str_eq (lower_text value) "off" then some 0 else elim (P.read_int value) [
    | none ↦ none
    | some n ↦ if leb n 4294967295 then some n else none
  ]

  -- The keys of `[Interface]`
  unfoldable pub set_interface : InterfaceKey → String → String → Parse → Step
  unfolding parse_prefixes add_dns parse_mark
  set_interface private_key_of key value s =
      if is_key value
      then next (record s { spec = record s.spec { private_key = value } })
      else refused bad_value
  set_interface address_of key value s = with (parse_prefixes (split_list value)) (λ ps.
      next (record s {
        spec = record s.spec { addresses = s.spec.addresses ++ map (λ p. p.text) ps };
      }))
  set_interface dns_of key value s = next (record s { spec = add_dns (split_list value) s.spec })
  set_interface listen_port_of key value s =
      with (parse_uint value 65535)
        (λ n. next (record s { spec = record s.spec { listen_port = n } }))
  set_interface fw_mark_of key value s =
      with (parse_mark value) (λ n. next (record s { spec = record s.spec { fw_mark = n } }))
  set_interface mtu_of key value s =
      with (parse_uint value 65535) (λ n. next (record s { spec = record s.spec { mtu = n } }))
  set_interface table_of key value s = next (record s { table = lower_text value })
  set_interface hook_of key value s =
      next (record s { unsupported = s.unsupported ++ ((key +s (" = " +s value)) ∷ []) })
  set_interface other key value s = refused unknown_key

  unfoldable pub interface_line : String → String → Parse → Step
  unfolding interface_key set_interface
  interface_line key value s = set_interface (interface_key key) key value s

  unfoldable pub keepalive : String → Option ℕ
  unfolding lower_text
  keepalive value = if str_eq (lower_text value) "off" then some 0 else parse_uint value 65535

  abbrev pub is_default4 : Prefix → Bool
  is_default4 p = (p.bits == 0) && p.is4

  abbrev pub is_default6 : Prefix → Bool
  is_default6 p = (p.bits == 0) && not p.is4

  -- The keys of `[Peer]`
  unfoldable pub set_peer : PeerKey → String → Parse → Step
  unfolding parse_prefixes keepalive is_endpoint
  set_peer public_key_of value s =
      if is_key value
      then with_peer s.cur (λ p. next (record s { cur = some (record p { public_key = value }) }))
      else refused bad_value
  set_peer preshared_key_of value s =
      if is_key value
      then with_peer s.cur
          (λ p. next (record s { cur = some (record p { preshared_key = value }) }))
      else refused bad_value
  set_peer endpoint_of value s =
      if is_endpoint value
      then with_peer s.cur (λ p. next (record s { cur = some (record p { endpoint = value }) }))
      else refused bad_value
  set_peer allowed_ips_of value s = with (parse_prefixes (split_list value)) (λ ps.
      with_peer s.cur (λ p. next (record s {
        cur = some (record p { allowed_ips = p.allowed_ips ++ map (λ q. q.text) ps });
        default_v4 = s.default_v4 || any is_default4 ps;
        default_v6 = s.default_v6 || any is_default6 ps;
      })))
  set_peer keepalive_of value s = with (keepalive value) (λ n.
      with_peer s.cur (λ p. next (record s { cur = some (record p { persistent_keepalive = n }) })))
  set_peer unknown value s = refused unknown_key

  unfoldable pub peer_line : String → String → Parse → Step
  unfolding peer_key set_peer
  peer_line key value s = set_peer (peer_key key) value s

  -- `HasDefaultRoute`
  unfoldable pub is_default_text : String → Bool
  is_default_text a = elim (P.read_prefix a) [ none ↦ false | some p ↦ p.bits == 0 ]

  unfoldable pub has_default_route : WireGuardSpec → Bool
  unfolding is_default_text
  has_default_route w = any (λ p. any is_default_text p.allowed_ips) w.peers

-- ===== src/Vpn/WireGuard/Keys.antt =====
-- Each line keeps what has been read in range.
use Prim.Native.Char.{code}
use mathlib.Core.Path.{subst}
use better_nm.Prelude.{
  String, [], ◌∷◌, Option, none, some, All-append, ◌≡◌, refl, arith, Bool-cases, Option-cases, inl,
  inr, sym, ◌==◌,
}
use better_nm.Vpn.WireGuard.Text.{parse_uint, is_key, split_list, cut, drop_last, trim}
use better_nm.Vpn.WireGuard.Spec.{
  Parsers, WireGuardPeer, Section, outside, interface_section, peer_section, Parse, Step,
  same_key_word, InterfaceKey, private_key_of, address_of, dns_of, listen_port_of, fw_mark_of,
  mtu_of, table_of, hook_of, other, interface_key, PeerKey, public_key_of, preshared_key_of,
  endpoint_of, allowed_ips_of, keepalive_of, unknown, peer_key, with_peer,
}
use better_nm.Vpn.WireGuard.Lines.{
  set_interface, set_peer, interface_line, peer_line, parse_mark, keepalive, is_endpoint,
  parse_prefixes,
}
use better_nm.Vpn.WireGuard.Conf.{no_peer, flush_peer, header_line, key_in, conf_line}
use better_nm.Vpn.WireGuard.Values.{
  IsPeer, IsSpec, IsCur, IsParse, IsStep, parse_uint-le, parse_mark-le, keepalive-le, with-IsStep,
  add_dns-IsSpec,
}

module _ ⦃P : Parsers⦄ where
  set_interface-IsStep :
      (k : InterfaceKey) (key value : String) (s : Parse)
      → IsParse s
      → IsStep (set_interface k key value s)
  unfolding set_interface
  set_interface-IsStep private_key_of key value s ((_, l, f, m, p, i), c) =
      elim (Bool-cases (is_key value)) [
        | inl good ↦ rw good ((ground (arith, good), l, f, m, p, i), c)
        | inr bad ↦ rw bad tt
      ]
  set_interface-IsStep address_of key value s v =
      with-IsStep (parse_prefixes (split_list value)) _ (λ ps e. v)
  set_interface-IsStep dns_of key value s (w, c) = (add_dns-IsSpec (split_list value) s.spec w, c)
  set_interface-IsStep listen_port_of key value s ((k, _, f, m, p, i), c) =
      with-IsStep (parse_uint value 65535) _ (λ n e. ((k, parse_uint-le value n e, f, m, p, i), c))
  set_interface-IsStep fw_mark_of key value s ((k, l, _, m, p, i), c) =
      with-IsStep (parse_mark value) _ (λ n e. ((k, l, parse_mark-le value n e, m, p, i), c))
  set_interface-IsStep mtu_of key value s ((k, l, f, _, p, i), c) =
      with-IsStep (parse_uint value 65535) _ (λ n e. ((k, l, f, parse_uint-le value n e, p, i), c))
  set_interface-IsStep table_of key value s v = v
  set_interface-IsStep hook_of key value s v = v
  set_interface-IsStep other key value s v = tt

  -- In a `[Peer]` section a peer is open.
  with_peer-IsStep :
      (s : Parse) (f : WireGuardPeer → Step)
      → s.section ≡ peer_section
      → IsParse s
      → ((p : WireGuardPeer) → IsPeer p → IsStep (f p))
      → IsStep (with_peer s.cur f)
  with_peer-IsStep s f here (w, c) h = elim (Option-cases s.cur) [
    | inl shut ↦ absurd (subst (IsCur none) here (subst (λ o. IsCur o s.section) shut c))
    | inr (p, e) ↦ rw e (h p (subst (λ o. IsCur o s.section) e c))
  ]

  set_peer-IsStep :
      (k : PeerKey) (value : String) (s : Parse)
      → s.section ≡ peer_section
      → IsParse s
      → IsStep (set_peer k value s)
  unfolding set_peer
  set_peer-IsStep public_key_of value s here v = elim (Bool-cases (is_key value)) [
    | inl good ↦
        rw good
          (with_peer-IsStep s _ here v (λ p (_, c, d, n). (v.0, (ground (arith, good), c, d, n))))
    | inr bad ↦ rw bad tt
  ]
  set_peer-IsStep preshared_key_of value s here v = elim (Bool-cases (is_key value)) [
    | inl good ↦
        rw good
          (with_peer-IsStep s _ here v (λ p (k, _, d, n). (v.0, (k, ground (arith, good), d, n))))
    | inr bad ↦ rw bad tt
  ]
  set_peer-IsStep endpoint_of value s here v = elim (Bool-cases (is_endpoint value)) [
    | inl good ↦
        rw good
          (with_peer-IsStep s _ here v (λ p (k, c, _, n). (v.0, (k, c, ground (arith, good), n))))
    | inr bad ↦ rw bad tt
  ]
  set_peer-IsStep allowed_ips_of value s here v =
      with-IsStep (parse_prefixes (split_list value)) _
        (λ ps e. with_peer-IsStep s _ here v (λ p q. (v.0, q)))
  set_peer-IsStep keepalive_of value s here v = with-IsStep (keepalive value) _ (λ n e.
      with_peer-IsStep s _ here v (λ p (k, c, d, _). (v.0, (k, c, d, keepalive-le value n e))))
  set_peer-IsStep unknown value s here v = tt

  pub flush_peer-IsSpec : (s : Parse) → IsParse s → IsSpec (flush_peer s).spec
  unfolding flush_peer
  flush_peer-IsSpec s ((k, l, f, m, ps, i), c) = elim (Option-cases s.cur) [
    | inl shut ↦ ground (arith, shut)
    | inr (p, e) ↦ rw e (
      k,
      l,
      f,
      m,
      All-append IsPeer s.spec.peers (p ∷ []) ps (subst (λ o. IsCur o s.section) e c, tt),
      i,
    )
  ]

  no_peer-IsPeer : IsPeer no_peer
  no_peer-IsPeer = (refl, refl, refl, omega arith)

  flush_peer-cur : (s : Parse) → (flush_peer s).cur ≡ none
  unfolding flush_peer
  flush_peer-cur s = ground arith

  header_line-IsStep : (o : Option String) (s : Parse) → IsParse s → IsStep (header_line o s)
  unfolding header_line
  header_line-IsStep none s v = tt
  header_line-IsStep (some name) s v = elim (Bool-cases (same_key_word "interface" (trim name))) [
    | inl is_interface ↦
        rw is_interface (
          flush_peer-IsSpec s v,
          subst (λ o. IsCur o interface_section) (sym (flush_peer-cur s)) tt,
        )
    | inr other_name ↦ rw other_name (elim (Bool-cases (same_key_word "peer" (trim name))) [
      | inl is_peer ↦ rw is_peer (flush_peer-IsSpec s v, no_peer-IsPeer)
      | inr strange ↦ rw strange tt
    ])
  ]

  key_in-IsStep :
      (x : Section) (key value : String) (s : Parse)
      → s.section ≡ x
      → IsParse s
      → IsStep (key_in x key value s)
  unfolding key_in interface_line peer_line
  key_in-IsStep outside key value s e v = tt
  key_in-IsStep interface_section key value s e v =
      set_interface-IsStep (interface_key key) key value s v
  key_in-IsStep peer_section key value s e v = set_peer-IsStep (peer_key key) value s e v

  pub conf_line-IsStep : (line : String) (s : Parse) → IsParse s → IsStep (conf_line line s)
  unfolding conf_line
  conf_line-IsStep String.[] s v = v
  conf_line-IsStep (String.◌∷◌ c rest) s v = elim (Bool-cases (code c == 91)) [
    | inl header ↦ rw header (header_line-IsStep (drop_last 93 rest) s v)
    | inr line ↦ rw line (elim (Option-cases (cut 61 (String.◌∷◌ c rest))) [
      | inl e ↦ rw e tt
      | inr ((key, value), e) ↦ rw e (key_in-IsStep s.section (trim key) (trim value) s refl v)
    ])
  ]

-- ===== src/Vpn/WireGuard/Defaults.antt =====
-- The two flags of the parser track whether a default route was read, key by key.
use mathlib.Core.Path.{subst}
use better_nm.Prelude.{
  String, List, [], ◌∷◌, ◌++◌, Bool, true, false, ◌||◌, Option, none, some, ◌==◌, if◌then◌else◌,
  any, map, ◌≡◌, refl, sym, ap, ◌∙◌, arith,
}
use better_nm.Vpn.WireGuard.Text.{is_key, parse_uint, split_list}
use better_nm.Vpn.WireGuard.Spec.{
  Addr, Prefix, Parsers, WireGuardPeer, WireGuardSpec, Parse, Step, next, refused, bad_value,
  InterfaceKey, private_key_of, address_of, dns_of, listen_port_of, fw_mark_of, mtu_of, table_of,
  hook_of, other, PeerKey, public_key_of, preshared_key_of, endpoint_of, allowed_ips_of,
  keepalive_of, unknown, with, with_peer,
}
use better_nm.Vpn.WireGuard.Lines.{
  set_interface, set_peer, parse_mark, keepalive, is_endpoint, add_server, add_dns, cons_prefix,
  parse_prefix, parse_prefixes, is_default_text, is_default4, is_default6,
}

pub any-append {ℓ} :
    {A : Type ℓ} (f : A → Bool) (xs ys : List A) → any f (xs ++ ys) ≡ (any f xs || any f ys)
any-append f [] ys = refl
any-append f (x ∷ xs) ys = ground (arith, any-append f xs ys)

grown :
    (v4 v6 new4 new6 peers old all : Bool) {new : Bool}
    → (v4 || v6) ≡ (peers || old)
    → new ≡ (new4 || new6)
    → all ≡ (old || new)
    → ((v4 || new4) || (v6 || new6)) ≡ (peers || all)
grown v4 v6 new4 new6 peers old all {new} a b c = ground (arith, a, b, c)

module _ ⦃P : Parsers⦄ where
  -- `netip` reads a prefix that it prints with the same length.
  abbrev pub Reprints : Type 0
  Reprints =
      (s : String) (p : Prefix) → parse_prefix s ≡ some p → is_default_text p.text ≡ (p.bits == 0)

  abbrev pub peer_default : WireGuardPeer → Bool
  peer_default p = any is_default_text p.allowed_ips

  abbrev cur_default : Option WireGuardPeer → Bool
  cur_default none = false
  cur_default (some p) = peer_default p

  -- The two flags say whether a prefix of length 0 was read; the route is not decided yet.
  abbrev pub Tracks : Parse → Type 0
  Tracks s =
      ((s.default_v4 || s.default_v6) ≡ (any peer_default s.spec.peers || cur_default s.cur))
      × (s.spec.auto_default_route ≡ none)

  abbrev pub StepTracks : Step → Type 0
  StepTracks (next s) = Tracks s
  StepTracks _ = Unit

  with-Tracks {ℓ} :
      {A : Type ℓ} (o : Option A) (f : A → Step)
      → ((a : A) → o ≡ some a → StepTracks (f a))
      → StepTracks (with o f)
  with-Tracks none f h = tt
  with-Tracks (some a) f h = h a refl

  with_peer-Tracks :
      (o : Option WireGuardPeer) (f : WireGuardPeer → Step)
      → ((p : WireGuardPeer) → o ≡ some p → StepTracks (f p))
      → StepTracks (with_peer o f)
  with_peer-Tracks none f h = tt
  with_peer-Tracks (some p) f h = h p refl

  if-Tracks : (b : Bool) (x : Step) → StepTracks x → StepTracks (if b then x else refused bad_value)
  if-Tracks true x h = h
  if-Tracks false x h = tt

  add_server-same :
      (o : Option Addr) (d : String) (w : WireGuardSpec)
      → ((add_server o d w).peers ≡ w.peers)
        × ((add_server o d w).auto_default_route ≡ w.auto_default_route)
  unfolding add_server
  add_server-same none d w = (refl, refl)
  add_server-same (some ip) d w = (refl, refl)

  add_dns-same :
      (ds : List String) (w : WireGuardSpec)
      → ((add_dns ds w).peers ≡ w.peers)
        × ((add_dns ds w).auto_default_route ≡ w.auto_default_route)
  unfolding add_dns
  add_dns-same [] w = (refl, refl)
  add_dns-same (d ∷ ds) w =
      let (peers, auto) = add_dns-same ds (add_server (P.read_addr d) d w) in
      let (peers', auto') = add_server-same (P.read_addr d) d w in (peers ∙ peers', auto ∙ auto')

  pub set_interface-Tracks :
      (k : InterfaceKey) (key value : String) (s : Parse)
      → Tracks s
      → StepTracks (set_interface k key value s)
  unfolding set_interface
  set_interface-Tracks private_key_of key value s t = if-Tracks (is_key value) _ t
  set_interface-Tracks address_of key value s t =
      with-Tracks (parse_prefixes (split_list value)) _ (λ ps e. t)
  set_interface-Tracks dns_of key value s (t, auto) =
      let (peers, same) = add_dns-same (split_list value) s.spec in
      (t ∙ ap (λ ps. any peer_default ps || cur_default s.cur) (sym peers), same ∙ auto)
  set_interface-Tracks listen_port_of key value s t =
      with-Tracks (parse_uint value 65535) _ (λ n e. t)
  set_interface-Tracks fw_mark_of key value s t = with-Tracks (parse_mark value) _ (λ n e. t)
  set_interface-Tracks mtu_of key value s t = with-Tracks (parse_uint value 65535) _ (λ n e. t)
  set_interface-Tracks table_of key value s t = t
  set_interface-Tracks hook_of key value s t = t
  set_interface-Tracks other key value s t = tt

  abbrev pub Agrees : Option (List Prefix) → Type 0
  Agrees none = Unit
  Agrees (some ps) =
      any is_default_text (map (λ q. q.text) ps) ≡ (any is_default4 ps || any is_default6 ps)

  cons_prefix-Agrees :
      (o : Option Prefix) (os : Option (List Prefix))
      → ((p : Prefix) → o ≡ some p → is_default_text p.text ≡ (p.bits == 0))
      → Agrees os
      → Agrees (cons_prefix o os)
  unfolding cons_prefix
  cons_prefix-Agrees none os r ih = tt
  cons_prefix-Agrees (some p) none r ih = tt
  cons_prefix-Agrees (some p) (some ps) r ih = ground (arith, r p refl, ih)

  parse_prefixes-Agrees : Reprints → (ss : List String) → Agrees (parse_prefixes ss)
  unfolding parse_prefixes
  parse_prefixes-Agrees r [] = refl
  parse_prefixes-Agrees r (s ∷ ss) =
      cons_prefix-Agrees (parse_prefix s) (parse_prefixes ss) (r s) (parse_prefixes-Agrees r ss)

  pub kept :
      (s : Parse) (p : WireGuardPeer)
      → s.cur ≡ some p
      → Tracks s
      → (s.default_v4 || s.default_v6) ≡ (any peer_default s.spec.peers || peer_default p)
  kept s p e (t, auto) = t ∙ ap (λ o. any peer_default s.spec.peers || cur_default o) e

  pub set_peer-Tracks :
      Reprints
      → (k : PeerKey) (value : String) (s : Parse) → Tracks s
      → StepTracks (set_peer k value s)
  unfolding set_peer
  set_peer-Tracks r public_key_of value s t =
      if-Tracks (is_key value) _ (with_peer-Tracks s.cur _ (λ p e. (kept s p e t, t.1)))
  set_peer-Tracks r preshared_key_of value s t =
      if-Tracks (is_key value) _ (with_peer-Tracks s.cur _ (λ p e. (kept s p e t, t.1)))
  set_peer-Tracks r endpoint_of value s t =
      if-Tracks (is_endpoint value) _ (with_peer-Tracks s.cur _ (λ p e. (kept s p e t, t.1)))
  set_peer-Tracks r allowed_ips_of value s t =
      with-Tracks (parse_prefixes (split_list value)) _ (λ ps e. with_peer-Tracks s.cur _ (λ p at.
        let agree = subst Agrees e (parse_prefixes-Agrees r (split_list value)) in
        let old = kept s p at t in
        let more = any-append is_default_text p.allowed_ips (map (λ q. q.text) ps) in
        (
          grown s.default_v4 s.default_v6 (any is_default4 ps) (any is_default6 ps)
              (any peer_default s.spec.peers) (peer_default p) _ old agree more,
          t.1,
        )))
  set_peer-Tracks r keepalive_of value s t =
      with-Tracks (keepalive value) _
        (λ n e. with_peer-Tracks s.cur _ (λ p at. (kept s p at t, t.1)))
  set_peer-Tracks r unknown value s t = tt

-- ===== src/Vpn/WireGuard/Routes.antt =====
-- The default route of an imported profile.
use Prim.Native.Char.{code}
use better_nm.Prelude.{
  ℕ, ◌+◌, String, List, [], ◌∷◌, Bool, true, false, Option, none, some, str_eq, ◌==◌, ◌≡◌, refl,
  arith, Bool-cases, Option-cases, inl, inr,
}
use better_nm.Vpn.WireGuard.Text.{cut, drop_last, trim, before}
use better_nm.Vpn.WireGuard.Spec.{
  Parsers, WireGuardPeer, Section, outside, interface_section, peer_section, Parse, Step, next,
  refused, nil_peer, Result, parsed, interface_key, peer_key, same_key_word,
}
use better_nm.Vpn.WireGuard.Lines.{interface_line, peer_line, has_default_route}
use better_nm.Vpn.WireGuard.Conf.{
  no_peer, flush_peer, header_line, key_in, conf_line, parse_line, missing_key, route_spec, finish,
  follow, parse_lines, new_parse, parse_conf,
}
use better_nm.Vpn.WireGuard.Defaults.{
  any-append, Reprints, peer_default, Tracks, StepTracks, set_interface-Tracks, set_peer-Tracks,
}

module _ ⦃P : Parsers⦄ where
  flush_peer-Tracks : (s : Parse) → Tracks s → Tracks (flush_peer s) × ((flush_peer s).cur ≡ none)
  unfolding flush_peer
  flush_peer-Tracks s (t, auto) = elim (Option-cases s.cur) [
    | inl e ↦ ground (arith, e, t, auto)
    | inr (p, e) ↦ ground (arith, e, t, auto, any-append peer_default s.spec.peers (p ∷ []))
  ]

  open_peer :
      (s : Parse) (p : WireGuardPeer) (x : Section)
      → Tracks s
      → s.cur ≡ none
      → peer_default p ≡ false
      → Tracks (record s { section = x; cur = some p })
  open_peer s p x (t, auto) e fresh = (ground (arith, t, e, fresh), auto)

  header_line-Tracks : (o : Option String) (s : Parse) → Tracks s → StepTracks (header_line o s)
  unfolding header_line
  header_line-Tracks none s t = tt
  header_line-Tracks (some name) s t =
      let (flushed, shut) = flush_peer-Tracks s t in
      elim (Bool-cases (same_key_word "interface" (trim name))) [
        | inl is_interface ↦ rw is_interface flushed
        | inr other_name ↦ rw other_name (elim (Bool-cases (same_key_word "peer" (trim name))) [
          | inl is_peer ↦
              rw is_peer (open_peer (flush_peer s) no_peer peer_section flushed shut refl)
          | inr strange ↦ rw strange tt
        ])
      ]

  key_in-Tracks :
      Reprints
      → (x : Section) (key value : String) (s : Parse) → Tracks s
      → StepTracks (key_in x key value s)
  unfolding key_in interface_line peer_line
  key_in-Tracks r outside key value s t = tt
  key_in-Tracks r interface_section key value s t =
      set_interface-Tracks (interface_key key) key value s t
  key_in-Tracks r peer_section key value s t = set_peer-Tracks r (peer_key key) value s t

  conf_line-Tracks :
      Reprints → (line : String) (s : Parse) → Tracks s → StepTracks (conf_line line s)
  unfolding conf_line
  conf_line-Tracks r String.[] s t = t
  conf_line-Tracks r (String.◌∷◌ c rest) s t = elim (Bool-cases (code c == 91)) [
    | inl header ↦ rw header (header_line-Tracks (drop_last 93 rest) s t)
    | inr line ↦ rw line (elim (Option-cases (cut 61 (String.◌∷◌ c rest))) [
      | inl e ↦ rw e tt
      | inr ((key, value), e) ↦ rw e (key_in-Tracks r s.section (trim key) (trim value) s t)
    ])
  ]

  -- A profile says that it takes the default route only if a peer of it does, and leaves the matter
  -- open only if none does.
  abbrev pub RoutesRight : Result → Type 0
  RoutesRight (parsed w) =
      (w.auto_default_route ≡ some true → has_default_route w ≡ true)
      × (w.auto_default_route ≡ none → has_default_route w ≡ false)
  RoutesRight _ = Unit

  route_spec-right : (s : Parse) → Tracks s → s.cur ≡ none → RoutesRight (parsed (route_spec s))
  unfolding route_spec has_default_route
  route_spec-right s (t, auto) shut = ground (arith, t, auto, shut)

  follow-RoutesRight :
      (n : ℕ) (x : Step) (f : Parse → Result)
      → StepTracks x
      → ((s : Parse) → Tracks s → RoutesRight (f s))
      → RoutesRight (follow n x f)
  follow-RoutesRight n (next s) f t h = h s t
  follow-RoutesRight n (refused why) f t h = tt
  follow-RoutesRight n nil_peer f t h = tt

  finish-RoutesRight : (s : Parse) → Tracks s → s.cur ≡ none → RoutesRight (finish s)
  unfolding finish
  finish-RoutesRight s t shut = elim (Bool-cases s.saw_iface) [
    | inr unseen ↦ rw unseen tt
    | inl seen ↦ rw seen (elim (Bool-cases (str_eq s.spec.private_key "")) [
      | inl unset ↦ rw unset tt
      | inr set ↦ rw set (elim (Option-cases (missing_key 0 s.spec.peers)) [
        | inr (j, e) ↦ rw e tt
        | inl e ↦ rw e (route_spec-right s t shut)
      ])
    ])
  ]

  parse_lines-RoutesRight :
      Reprints
      → (n : ℕ) (lines : List String) (ok : Bool) (s : Parse) → Tracks s
      → RoutesRight (parse_lines n lines ok s)
  unfolding parse_lines
  parse_lines-RoutesRight r n [] true s t =
      let (flushed, shut) = flush_peer-Tracks s t in finish-RoutesRight (flush_peer s) flushed shut
  parse_lines-RoutesRight r n [] false s t = tt
  parse_lines-RoutesRight r n (line ∷ rest) ok s t =
      follow-RoutesRight (n + 1) (parse_line line s) (parse_lines (n + 1) rest ok)
        (conf_line-Tracks r (trim (before 35 line)) s t) (parse_lines-RoutesRight r (n + 1) rest ok)

  -- Whatever the file: a profile that `ParseConf` accepts has `AutoDefaultRoute` set only if
  -- `HasDefaultRoute` holds of it, and leaves it nil only if it does not, provided that a prefix which
  -- was read and printed is read back with its length.
  pub parse_conf-RoutesRight :
      Reprints
      → (name : String) (lines : List String) (ok : Bool) → RoutesRight (parse_conf name lines ok)
  unfolding parse_conf new_parse
  parse_conf-RoutesRight r name lines ok =
      parse_lines-RoutesRight r 0 lines ok (new_parse name) (refl, refl)

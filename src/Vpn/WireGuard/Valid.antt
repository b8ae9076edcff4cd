-- ===== src/Vpn/WireGuard/Valid.antt =====
-- What `ParseConf` accepts is a usable profile, and no input makes it panic.
use better_nm.Prelude.{
  ℕ, ◌+◌, String, List, [], ◌∷◌, Bool, true, false, ◌||◌, none, str_eq, All, ◌≡◌, refl, arith,
  Bool-cases, Option-cases, inl, inr,
}
use better_nm.Vpn.WireGuard.Text.{profile_name, trim, before}
use better_nm.Vpn.WireGuard.Spec.{
  Parsers, WireGuardPeer, Parse, Step, next, refused, nil_peer, Result,
}
use better_nm.Vpn.WireGuard.Conf.{
  flush_peer, parse_line, missing_key, route_spec, finish, follow, parse_lines, new_parse,
  parse_conf,
}
use better_nm.Vpn.WireGuard.Values.{
  iface_name-IsName, IsPeer, IsSpec, IsParse, IsStep, IsFullPeer, IsUsable, IsResult,
}
use better_nm.Vpn.WireGuard.Keys.{flush_peer-IsSpec, conf_line-IsStep}

module _ ⦃P : Parsers⦄ where
  follow-IsResult :
      (n : ℕ) (x : Step) (f : Parse → Result)
      → IsStep x
      → ((s : Parse) → IsParse s → IsResult (f s))
      → IsResult (follow n x f)
  follow-IsResult n (next s) f v h = h s v
  follow-IsResult n (refused why) f v h = tt
  follow-IsResult n nil_peer f v h = v

  missing_key-none :
      (i : ℕ) (ps : List WireGuardPeer)
      → missing_key i ps ≡ none
      → All IsPeer ps
      → All IsFullPeer ps
  unfolding missing_key
  missing_key-none i [] e v = tt
  missing_key-none i (p ∷ ps) e ((k, c, d, n), vs) = elim (Bool-cases (str_eq p.public_key "")) [
    | inl empty ↦ absurd (ground (arith, empty, e))
    | inr full ↦ ((ground arith, c, d, n), missing_key-none (i + 1) ps (ground (arith, full, e)) vs)
  ]

  -- The default route does not touch the rest of the profile.
  route_spec-IsUsable : (s : Parse) → IsUsable s.spec → IsUsable (route_spec s)
  unfolding route_spec
  route_spec-IsUsable s v = elim (Bool-cases (str_eq s.table "off")) [
    | inl off ↦ rw off v
    | inr on ↦
        rw on
          (elim (Bool-cases (str_eq s.table "" || str_eq s.table "auto" || str_eq s.table "main")) [
            | inl auto ↦ rw auto v
            | inr custom ↦ rw custom v
          ])
  ]

  finish-IsResult : (s : Parse) → IsSpec s.spec → IsResult (finish s)
  unfolding finish
  finish-IsResult s (k, l, f, m, ps, i) = elim (Bool-cases s.saw_iface) [
    | inr unseen ↦ rw unseen tt
    | inl seen ↦ rw seen (elim (Bool-cases (str_eq s.spec.private_key "")) [
      | inl unset ↦ rw unset tt
      | inr set ↦ rw set (elim (Option-cases (missing_key 0 s.spec.peers)) [
        | inr (j, e) ↦ rw e tt
        | inl e ↦
            rw e (
              route_spec-IsUsable s
                (ground arith, l, f, m, missing_key-none 0 s.spec.peers e ps, i))
      ])
    ])
  ]

  parse_lines-IsResult :
      (n : ℕ) (lines : List String) (ok : Bool) (s : Parse)
      → IsParse s
      → IsResult (parse_lines n lines ok s)
  unfolding parse_lines
  parse_lines-IsResult n [] true s v = finish-IsResult (flush_peer s) (flush_peer-IsSpec s v)
  parse_lines-IsResult n [] false s v = tt
  parse_lines-IsResult n (line ∷ rest) ok s v =
      follow-IsResult (n + 1) (parse_line line s) (parse_lines (n + 1) rest ok)
        (conf_line-IsStep (trim (before 35 line)) s v) (parse_lines-IsResult (n + 1) rest ok)

  -- On every input `ParseConf` returns, without a panic. A profile that it accepts has a private key
  -- and, for each peer, a public key of the form of 32 bytes (and a preshared key of it or none); its
  -- ports, MTU, mark and keepalives are in range, its endpoints well-formed, and its interface name is
  -- one to 15 ASCII letters, digits, underscores, dashes and dots and is neither "." nor "..".
  pub parse_conf-IsResult :
      (name : String) (lines : List String) (ok : Bool) → IsResult (parse_conf name lines ok)
  unfolding parse_conf new_parse
  parse_conf-IsResult name lines ok =
      parse_lines-IsResult 0 lines ok (new_parse name) (
        (refl, omega arith, omega arith, omega arith, tt, iface_name-IsName (profile_name name)),
        tt,
      )

-- ===== src/Cli/Safe/Chunks.antt =====
-- The writer and the cuts between writes.
use better_nm.Prelude.{
  ℕ, zero, suc, List, [], ◌∷◌, ◌++◌, append_assoc, append-nil, All, Bool, true, false, ◌&&◌, ◌==◌,
  ◌≡◌, refl, sym, ap, ◌∙◌, arith, Bool-cases, inl, inr,
}
use better_nm.Cli.Safe.{
  write, flush, write_all, esc, is_param, Scan, complete, broken, ran_out, one_more, scan_params,
  sgr_end, Mode, plain, copy, skip, starts_c1, is_control, emit, at_esc, sanitize,
}
use better_nm.Cli.Safe.Output.{Scan-cases, one_more-complete, last_complete, first_complete}

-- The last byte is the first one of an 8-bit control.
abbrev pub ends_c1 : List ℕ → Bool
ends_c1 [] = false
ends_c1 (b ∷ []) = b == 194
ends_c1 (b ∷ (c ∷ cs)) = ends_c1 (c ∷ cs)

one_more-broken : (x : Scan) → one_more x ≡ broken → x ≡ broken
one_more-broken (complete n) h = cc
one_more-broken broken h = refl
one_more-broken ran_out h = cc

-- A decided scan does not depend on what follows.
scan_params-append :
    (p q : List ℕ) (x : Scan) → scan_params p ≡ x → (x ≡ ran_out → ⊥) → scan_params (p ++ q) ≡ x
unfolding scan_params
scan_params-append [] q x h decided = absurd (decided (sym h))
scan_params-append (b ∷ p) q x h decided = elim (Bool-cases (is_param b)) [
  | inl is ↦
      let h' = rw is at h in
      rw is (
        ap one_more
          (scan_params-append p q (scan_params p) refl (λ e. decided (sym h' ∙ ap one_more e)))
        ∙ h')
  | inr other ↦ rw other (rw other at h)
]

sgr_end-append :
    (p q : List ℕ) (x : Scan) → sgr_end p ≡ x → (x ≡ ran_out → ⊥) → sgr_end (p ++ q) ≡ x
unfolding sgr_end
sgr_end-append [] q x h decided = absurd (decided (sym h))
sgr_end-append (b ∷ p) q x h decided = elim (Bool-cases (b == 91)) [
  | inl is ↦
      let h' = rw is at h in
      rw is (
        ap one_more
          (scan_params-append p q (scan_params p) refl (λ e. decided (sym h' ∙ ap one_more e)))
        ∙ h')
  | inr other ↦ rw other (rw other at h)
]

module _ (final : Bool) (q : List ℕ) where
  -- A first result, continued with what it holds and the rest of the input.
  abbrev joined : List ℕ × List ℕ → List ℕ × List ℕ
  joined r = let rest = sanitize final plain (r.1 ++ q) in (r.0 ++ rest.0, rest.1)

  abbrev Joins : Mode → List ℕ → Type 0
  Joins mode p = sanitize final mode (p ++ q) ≡ joined (sanitize false mode p)

  abbrev AllJoin : List ℕ → Type 0
  AllJoin p =
      (ends_c1 p ≡ false → Joins plain p)
      × (ends_c1 p ≡ false → starts_c1 p ≡ true → Joins skip p)
      × ((n : ℕ) → ends_c1 p ≡ false → scan_params p ≡ complete n → Joins (copy n) p)
      × ((n : ℕ) → ends_c1 p ≡ false → sgr_end p ≡ complete n → Joins (copy n) p)

  ends_c1-tail : (b : ℕ) (p : List ℕ) → ends_c1 (b ∷ p) ≡ false → ends_c1 p ≡ false
  ends_c1-tail b [] h = refl
  ends_c1-tail b (c ∷ p) h = h

  starts_c1-append :
      (b : ℕ) (p : List ℕ)
      → ends_c1 (b ∷ p) ≡ false
      → ((b == 194) && starts_c1 (p ++ q)) ≡ ((b == 194) && starts_c1 p)
  starts_c1-append b [] h = ground (arith, h)
  starts_c1-append b (c ∷ p) h = refl

  plain-Joins : (b : ℕ) (p : List ℕ) → AllJoin p → ends_c1 (b ∷ p) ≡ false → Joins plain (b ∷ p)
  unfolding sanitize
  plain-Joins b p (read, skipped, copied, code) h =
      let h' = ends_c1-tail b p h in
      elim (Bool-cases (b == esc)) [
        | inl is ↦ rw is (elim (Scan-cases (sgr_end p)) [
          | inl (n, e) ↦
              rw (e, sgr_end-append p q (complete n) e (λ x. cc)) (ap (emit esc) (code n h' e))
          | inr (inl e) ↦ rw (e, sgr_end-append p q broken e (λ x. cc)) (read h')
          | inr (inr e) ↦ rw e refl
        ])
        | inr other ↦ rw other (elim (Bool-cases (is_control b)) [
          | inl control ↦ rw control (read h')
          | inr printed ↦
              rw (printed, starts_c1-append b p h)
                (elim (Bool-cases ((b == 194) && starts_c1 p)) [
                  | inl c1 ↦ rw c1 (skipped h' (ground (arith, c1)))
                  | inr free ↦ rw free (ap (emit b) (read h'))
                ])
        ])
      ]

  all_join : (p : List ℕ) → AllJoin p
  unfolding sanitize scan_params sgr_end
  all_join [] = (λ h. refl, λ h c1. cc, λ n h e. cc, λ n h e. cc)
  all_join (b ∷ p) =
      let ih = all_join p in
      (
        plain-Joins b p ih,
        λ h c1. ih.0 (ends_c1-tail b p h),
        λ n h s. elim (Bool-cases (is_param b)) [
          | inl is ↦
              let (m, e, at) = one_more-complete _ n (rw is at s) in
              rw e (ap (emit b) (ih.2 m (ends_c1-tail b p h) at))
          | inr other ↦
              let (is, e) = last_complete (b == 109) n (rw other at s) in
              rw e (ap (emit b) (ih.0 (ends_c1-tail b p h)))
        ],
        λ n h s.
            let (is, s') = first_complete (b == 91) (scan_params p) n s in
            let (m, e, at) = one_more-complete (scan_params p) n s' in
            rw e (ap (emit b) (ih.2 m (ends_c1-tail b p h) at)),
      )

ends_c1-append :
    (xs ys : List ℕ) → ends_c1 xs ≡ false → ends_c1 ys ≡ false → ends_c1 (xs ++ ys) ≡ false
ends_c1-append [] ys a b = b
ends_c1-append (x ∷ []) [] a b = a
ends_c1-append (x ∷ []) (y ∷ ys) a b = b
ends_c1-append (x ∷ (z ∷ xs)) ys a b = ends_c1-append (z ∷ xs) ys a b

ends_c1-cons : (b : ℕ) (p : List ℕ) → ends_c1 (b ∷ p) ≡ false → ends_c1 (esc ∷ p) ≡ false
ends_c1-cons b [] h = refl
ends_c1-cons b (c ∷ p) h = h

at_esc-ends :
    (x : Scan) (p : List ℕ) (copied : ℕ → List ℕ × List ℕ) (dropped : List ℕ × List ℕ)
    → ends_c1 (esc ∷ p) ≡ false
    → ((n : ℕ) → ends_c1 (copied n).1 ≡ false)
    → ends_c1 dropped.1 ≡ false
    → ends_c1 (at_esc x false p copied dropped).1 ≡ false
at_esc-ends (complete n) p copied dropped h c d = c n
at_esc-ends broken p copied dropped h c d = d
at_esc-ends ran_out p copied dropped h c d = h

-- What is held does not end in half a control either.
sanitize-ends :
    (p : List ℕ) (mode : Mode) → ends_c1 p ≡ false → ends_c1 (sanitize false mode p).1 ≡ false
unfolding sanitize
sanitize-ends [] mode h = refl
sanitize-ends (b ∷ p) skip h = sanitize-ends p plain (ends_c1-tail false [] b p h)
sanitize-ends (b ∷ p) (copy zero) h = sanitize-ends p plain (ends_c1-tail false [] b p h)
sanitize-ends (b ∷ p) (copy (suc n)) h = sanitize-ends p (copy n) (ends_c1-tail false [] b p h)
sanitize-ends (b ∷ p) plain h =
    let h' = ends_c1-tail false [] b p h in
    let read = sanitize-ends p plain h' in
    elim (Bool-cases (b == esc)) [
      | inl is ↦ rw is (
          at_esc-ends (sgr_end p) p _ _ (ends_c1-cons b p h) (λ n. sanitize-ends p (copy n) h')
            read)
      | inr other ↦ rw other (elim (Bool-cases (is_control b)) [
        | inl control ↦ rw control read
        | inr printed ↦ rw printed (elim (Bool-cases ((b == 194) && starts_c1 p)) [
          | inl c1 ↦ rw c1 (sanitize-ends p skip h')
          | inr free ↦ rw free read
        ])
      ])
    ]

-- All bytes that are written
abbrev pub concat : List (List ℕ) → List ℕ
concat [] = []
concat (p ∷ ps) = p ++ concat ps

pub write_from-sanitize :
    (hold : List ℕ) (ps : List (List ℕ))
    → ends_c1 hold ≡ false
    → All (λ p. ends_c1 p ≡ false) ps
    → write_all hold ps ≡ (sanitize true plain (hold ++ concat ps)).0
unfolding write_all write flush
write_from-sanitize hold [] h all = rw (append-nil hold) refl
write_from-sanitize hold (p ∷ ps) h (hp, all) =
    let whole = ends_c1-append hold p h hp in
    let r = sanitize false plain (hold ++ p) in
    ap (λ out. r.0 ++ out) (write_from-sanitize r.1 ps (sanitize-ends (hold ++ p) plain whole) all)
    ∙ sym (ap (λ x. x.0) ((all_join true (concat ps) (hold ++ p)).0 whole))
    ∙ ap (λ bs. (sanitize true plain bs).0) (append_assoc hold p (concat ps))

-- However the output is cut into writes: as long as no write ends in the first byte of an 8-bit control,
-- the terminal receives, the flush at the end included, what it would of all bytes sanitized at once.
pub write_all-sanitize :
    (ps : List (List ℕ))
    → All (λ p. ends_c1 p ≡ false) ps
    → write_all [] ps ≡ (sanitize true plain (concat ps)).0
write_all-sanitize ps all = write_from-sanitize [] ps refl all

-- A control that is dropped between the two bytes of an 8-bit control brings them together: that
-- one reaches the terminal.
pub c1_leaks :
    (final : Bool) (b c : ℕ)
    → is_control b ≡ true
    → (b == esc) ≡ false
    → starts_c1 (c ∷ []) ≡ true
    → sanitize final plain (194 ∷ (b ∷ (c ∷ []))) ≡ (194 ∷ (c ∷ []), [])
unfolding sanitize
c1_leaks final b c control other c1 = ground arith

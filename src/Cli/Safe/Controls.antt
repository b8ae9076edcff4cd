-- ===== src/Cli/Safe/Controls.antt =====
-- internal/cli/safe.go: all the control characters that the writer drops, the 8-bit ones included.
use better_nm.Prelude.{
  ℕ, List, [], ◌∷◌, ◌++◌, Bool, true, false, ◌&&◌, ◌||◌, leb, ◌==◌, if◌then◌else◌, ◌≡◌, ◌⊎◌, inl,
  inr, refl, ap, ◌∙◌, arith, Bool-cases, All,
}
use better_nm.Cli.Safe.{
  write_all, esc, is_param, complete, scan_params, sgr_end, plain, copy, skip, starts_c1,
  is_control, sanitize,
}
use better_nm.Cli.Safe.Output.{
  is_safe, text, and_parts, Scan-cases, one_more-complete, last_complete, first_complete,
  write_all-is_safe,
}
use better_nm.Cli.Safe.Chunks.{ends_c1, concat, write_from-sanitize}

-- The UTF-8 form of an 8-bit control (U+0080 to U+009F) is in the text.
abbrev pub has_c1 : List ℕ → Bool
has_c1 [] = false
has_c1 (b ∷ bs) = let rest = has_c1 bs in ((b == 194) && starts_c1 bs) || rest

abbrev continues : List ℕ → Bool
continues [] = false
continues (c ∷ cs) = leb 128 c && leb c 191

-- The first byte 0xC2 of a two-byte character is followed by the second one, as in all UTF-8 text.
abbrev pub is_paired : List ℕ → Bool
is_paired [] = true
is_paired (b ∷ bs) = let rest = is_paired bs in (if b == 194 then continues bs else true) && rest

abbrev pub all_paired : List (List ℕ) → Bool
all_paired [] = true
all_paired (p ∷ ps) = let rest = all_paired ps in is_paired p && rest

paired-tail : (b : ℕ) (bs : List ℕ) → is_paired (b ∷ bs) ≡ true → is_paired bs ≡ true
paired-tail b bs h = (and_parts (if b == 194 then continues bs else true) (is_paired bs) h).1

module _ (final : Bool) where
  -- No mode lets an 8-bit control through; a copy is of bytes of a colour code.
  abbrev Free : List ℕ → Type 0
  Free bs =
      (has_c1 (sanitize final plain bs).0 ≡ false)
      × (has_c1 (sanitize final skip bs).0 ≡ false)
      × ((n : ℕ) → scan_params bs ≡ complete n → has_c1 (sanitize final (copy n) bs).0 ≡ false)
      × ((n : ℕ) → sgr_end bs ≡ complete n → has_c1 (sanitize final (copy n) bs).0 ≡ false)

  -- A byte that continues a character is shown.
  continued :
      (bs : List ℕ)
      → continues bs ≡ true
      → starts_c1 bs ≡ false
      → starts_c1 (sanitize final plain bs).0 ≡ false
  unfolding sanitize
  continued [] h c1 = refl
  continued (c ∷ cs) h c1 =
      let other : (c == esc) ≡ false = ground (arith, h) in
      let printed : is_control c ≡ false = ground (arith, h) in
      let single : (c == 194) ≡ false = ground (arith, h) in rw other (rw printed (rw single c1))

  plain-Free :
      (b : ℕ) (bs : List ℕ)
      → is_paired (b ∷ bs) ≡ true
      → Free bs
      → has_c1 (sanitize final plain (b ∷ bs)).0 ≡ false
  unfolding sanitize
  plain-Free b bs paired (read, skipped, copied, code) = elim (Bool-cases (b == esc)) [
    | inl is ↦ rw is (elim (Scan-cases (sgr_end bs)) [
      | inl (n, e) ↦ rw e (code n e)
      | inr (inl e) ↦ rw e read
      | inr (inr e) ↦ rw e (elim (Bool-cases final) [ inl f ↦ rw f read | inr f ↦ rw f refl ])
    ])
    | inr other ↦ rw other (elim (Bool-cases (is_control b)) [
      | inl control ↦ rw control read
      | inr printed ↦ rw printed (elim (Bool-cases (b == 194)) [
        | inr single ↦ rw single (rw single read)
        | inl double ↦ rw double (elim (Bool-cases (starts_c1 bs)) [
          | inl c1 ↦ rw c1 skipped
          | inr shown ↦
              let next = continued bs (ground (arith, paired, double)) shown in
              rw shown (rw double (rw next read))
        ])
      ])
    ])
  ]

  sanitize-Free : (bs : List ℕ) → is_paired bs ≡ true → Free bs
  unfolding sanitize scan_params sgr_end
  sanitize-Free [] paired = (refl, refl, λ n h. cc, λ n h. cc)
  sanitize-Free (b ∷ bs) paired =
      let ih = sanitize-Free bs (paired-tail b bs paired) in
      (
        plain-Free b bs paired ih,
        ih.0,
        λ n h. elim (Bool-cases (is_param b)) [
          | inl is ↦
              let (m, e, at) = one_more-complete _ n (rw is at h) in
              let single : (b == 194) ≡ false = ground (arith, is) in rw e (rw single (ih.2 m at))
          | inr other ↦
              let (is, e) = last_complete (b == 109) n (rw other at h) in
              let single : (b == 194) ≡ false = ground (arith, is) in rw e (rw single ih.0)
        ],
        λ n h.
            let (is, h') = first_complete (b == 91) (scan_params bs) n h in
            let (m, e, at) = one_more-complete (scan_params bs) n h' in
            let single : (b == 194) ≡ false = ground (arith, is) in rw e (rw single (ih.2 m at)),
      )

paired-append :
    (xs ys : List ℕ) → is_paired xs ≡ true → is_paired ys ≡ true → is_paired (xs ++ ys) ≡ true
paired-append [] ys a b = b
paired-append (x ∷ []) ys a b = ground (arith, a, b)
paired-append (x ∷ (z ∷ xs)) ys a b =
    let (ok, rest) =
      and_parts (if x == 194 then continues (z ∷ xs) else true) (is_paired (z ∷ xs)) a in
    rw ok (paired-append (z ∷ xs) ys rest b)

paired-ends : (bs : List ℕ) → is_paired bs ≡ true → ends_c1 bs ≡ false
paired-ends [] h = refl
paired-ends (b ∷ []) h = ground (arith, h)
paired-ends (b ∷ (c ∷ bs)) h = paired-ends (c ∷ bs) (paired-tail b (c ∷ bs) h)

all_paired-ends : (ps : List (List ℕ)) → all_paired ps ≡ true → All (λ p. ends_c1 p ≡ false) ps
all_paired-ends [] h = tt
all_paired-ends (p ∷ ps) h =
    let (one, rest) = and_parts (is_paired p) (all_paired ps) h in
    (paired-ends p one, all_paired-ends ps rest)

concat-paired : (ps : List (List ℕ)) → all_paired ps ≡ true → is_paired (concat ps) ≡ true
concat-paired [] h = refl
concat-paired (p ∷ ps) h =
    let (one, rest) = and_parts (is_paired p) (all_paired ps) h in
    paired-append p (concat ps) one (concat-paired ps rest)

write_all-Free :
    (hold : List ℕ) (ps : List (List ℕ))
    → all_paired (hold ∷ ps) ≡ true
    → has_c1 (write_all hold ps) ≡ false
write_all-Free hold ps h =
    let (one, rest) = and_parts (is_paired hold) (all_paired ps) h in
    ap has_c1 (write_from-sanitize hold ps (paired-ends hold one) (all_paired-ends ps rest))
    ∙ (sanitize-Free true (hold ++ concat ps) (concat-paired (hold ∷ ps) h)).0

-- However the output of the command line is cut into writes, after the flush at the end the terminal
-- has received no ASCII control but newline, tab and complete colour codes, in which alone an ESC
-- occurs; and it has received no UTF-8 encoded 8-bit control (U+0080 to U+009F) either, unless in some
-- write, or in what was held before them, a byte 0xC2 is the last one or is followed by another than a
-- continuation byte.
pub write_all-controls :
    (hold : List ℕ) (ps : List (List ℕ))
    → let out = write_all hold ps in
      (is_safe text out ≡ true) × ((has_c1 out ≡ false) ⊎ (all_paired (hold ∷ ps) ≡ false))
write_all-controls hold ps = (
  write_all-is_safe hold ps,
  elim (Bool-cases (all_paired (hold ∷ ps))) [
    | inl paired ↦ inl (write_all-Free hold ps paired)
    | inr cut ↦ inr cut
  ],
)

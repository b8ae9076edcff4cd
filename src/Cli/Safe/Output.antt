-- ===== src/Cli/Safe/Output.antt =====
-- What reaches the terminal.
use better_nm.Prelude.{
  ℕ, zero, suc, List, [], ◌∷◌, ◌++◌, Bool, true, false, not, ◌&&◌, ◌==◌, if◌then◌else◌, ◌≡◌, refl,
  arith, Bool-cases, inl, inr, ◌⊎◌,
}
use better_nm.Cli.Safe.{
  esc, is_param, Scan, complete, broken, ran_out, one_more, scan_params, sgr_end, plain, copy, skip,
  is_control, sanitize, write, flush, write_all,
}

-- A terminal's view of the output: in text, behind an ESC, and inside a colour code.
pub data Screen : Type 0 where
  text behind_esc in_code : Screen

-- The output consists of text without ASCII controls (newline and tab apart) and of complete colour
-- codes, read from that state; it says nothing of 8-bit controls.
abbrev pub is_safe : Screen → List ℕ → Bool
is_safe text [] = true
is_safe behind_esc [] = false
is_safe in_code [] = false
is_safe text (b ∷ bs) =
    let code = is_safe behind_esc bs in
    let more = is_safe text bs in if b == esc then code else not (is_control b) && more
is_safe behind_esc (b ∷ bs) = (b == 91) && is_safe in_code bs
is_safe in_code (b ∷ bs) =
    let code = is_safe in_code bs in
    let more = is_safe text bs in if is_param b then code else (b == 109) && more

pub and_parts : (a b : Bool) → (a && b) ≡ true → (a ≡ true) × (b ≡ true)
and_parts true b h = (refl, h)
and_parts false b h = absurd (ground (arith, h))

is_safe-append :
    (s : Screen) (xs ys : List ℕ)
    → is_safe s xs ≡ true
    → is_safe text ys ≡ true
    → is_safe s (xs ++ ys) ≡ true
is_safe-append text [] ys a b = b
is_safe-append behind_esc [] ys a b = absurd (ground (arith, a))
is_safe-append in_code [] ys a b = absurd (ground (arith, a))
is_safe-append text (x ∷ xs) ys a b = elim (Bool-cases (x == esc)) [
  | inl is ↦ rw is (is_safe-append behind_esc xs ys (rw is at a) b)
  | inr other ↦
      let (ok, more) = and_parts (not (is_control x)) (is_safe text xs) (rw other at a) in
      rw (other, ok) (is_safe-append text xs ys more b)
]
is_safe-append behind_esc (x ∷ xs) ys a b =
    let (ok, more) = and_parts (x == 91) (is_safe in_code xs) a in
    rw ok (is_safe-append in_code xs ys more b)
is_safe-append in_code (x ∷ xs) ys a b = elim (Bool-cases (is_param x)) [
  | inl is ↦ rw is (is_safe-append in_code xs ys (rw is at a) b)
  | inr other ↦
      let (ok, more) = and_parts (x == 109) (is_safe text xs) (rw other at a) in
      rw (other, ok) (is_safe-append text xs ys more b)
]

pub Scan-cases : (x : Scan) → ((n : ℕ) × (x ≡ complete n)) ⊎ (x ≡ broken) ⊎ (x ≡ ran_out)
Scan-cases (complete n) = inl (n, refl)
Scan-cases broken = inr (inl refl)
Scan-cases ran_out = inr (inr refl)

pub one_more-complete :
    (x : Scan) (n : ℕ) → one_more x ≡ complete n → (m : ℕ) × (n ≡ suc m) × (x ≡ complete m)
one_more-complete (complete m) n h = (m, cc, refl)
one_more-complete broken n h = cc
one_more-complete ran_out n h = cc

pub last_complete :
    (t : Bool) (n : ℕ) → (if t then complete 0 else broken) ≡ complete n → (t ≡ true) × (n ≡ zero)
last_complete true n h = (refl, cc)
last_complete false n h = cc

pub first_complete :
    (t : Bool) (x : Scan) (n : ℕ)
    → (if t then one_more x else broken) ≡ complete n
    → (t ≡ true) × (one_more x ≡ complete n)
first_complete true x n h = (refl, h)
first_complete false x n h = cc

module _ (final : Bool) where
  -- Every mode leaves the terminal where it should; a copy starts inside a code or behind its ESC.
  abbrev Safe : List ℕ → Type 0
  Safe bs =
      (is_safe text (sanitize final plain bs).0 ≡ true)
      × (is_safe text (sanitize final skip bs).0 ≡ true)
      × ((n : ℕ)
          → scan_params bs ≡ complete n
          → is_safe in_code (sanitize final (copy n) bs).0 ≡ true)
      × ((n : ℕ)
          → sgr_end bs ≡ complete n
          → is_safe behind_esc (sanitize final (copy n) bs).0 ≡ true)

  plain-is_safe :
      (b : ℕ) (bs : List ℕ) → Safe bs → is_safe text (sanitize final plain (b ∷ bs)).0 ≡ true
  unfolding sanitize
  plain-is_safe b bs (read, skipped, copied, code) = elim (Bool-cases (b == esc)) [
    | inl is ↦ rw is (elim (Scan-cases (sgr_end bs)) [
      | inl (n, e) ↦ rw e (code n e)
      | inr (inl e) ↦ rw e read
      | inr (inr e) ↦ rw e (elim (Bool-cases final) [ inl f ↦ rw f read | inr f ↦ rw f refl ])
    ])
    | inr other ↦ ground (arith, other, read, skipped)
  ]

  sanitize-Safe : (bs : List ℕ) → Safe bs
  unfolding sanitize scan_params sgr_end
  sanitize-Safe [] = (refl, refl, λ n h. cc, λ n h. cc)
  sanitize-Safe (b ∷ bs) =
      let ih = sanitize-Safe bs in
      (
        plain-is_safe b bs ih,
        ih.0,
        λ n h. elim (Bool-cases (is_param b)) [
          | inl is ↦ let (m, e, at) = one_more-complete _ n (rw is at h) in rw (e, is) (ih.2 m at)
          | inr other ↦
              let (is, e) = last_complete (b == 109) n (rw other at h) in rw (e, other, is) ih.0
        ],
        λ n h.
            let (is, h') = first_complete (b == 91) (scan_params bs) n h in
            let (m, e, at) = one_more-complete (scan_params bs) n h' in rw (e, is) (ih.2 m at),
      )

sanitize-is_safe : (final : Bool) (bs : List ℕ) → is_safe text (sanitize final plain bs).0 ≡ true
sanitize-is_safe final bs = (sanitize-Safe final bs).0

-- What the terminal has received after the flush at the end is safe, however it was cut into writes.
pub write_all-is_safe :
    (hold : List ℕ) (ps : List (List ℕ)) → is_safe text (write_all hold ps) ≡ true
unfolding write_all write flush
write_all-is_safe hold [] = sanitize-is_safe true hold
write_all-is_safe hold (p ∷ ps) =
    is_safe-append text (sanitize false plain (hold ++ p)).0 _ (sanitize-is_safe false (hold ++ p))
      (write_all-is_safe (sanitize false plain (hold ++ p)).1 ps)

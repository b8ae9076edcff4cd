-- ===== src/Cli/Resolve/Levels.antt =====
-- How strictly an argument names each candidate, and the hits of one test.
use mathlib.Core.Path.{subst}
use better_nm.Prelude.{
  ℕ, suc, ◌≤◌, ◌<◌, String, List, [], ◌∷◌, Bool, true, false, str_eq, if◌then◌else◌, length, All,
  All-map, ◌≡◌, ◌⊎◌, inl, inr, refl, sym, ap, ◌∙◌, arith, Bool-cases,
}
use better_nm.Monitor.Engine.{text_less}
use better_nm.Cli.Resolve.{
  Candidate, tiers, hits_of, insert_hit, sort_hits, Resolution, found, ambiguous, refused,
}

-- How strictly a candidate is meant: the number of the first test that it passes.
abbrev pub level_from : ℕ → List (Candidate → Bool) → Candidate → ℕ
level_from n [] c = n
level_from n (match ∷ ms) c = let rest = level_from (suc n) ms c in if match c then n else rest

-- 0 is the ID itself, 5 is no match.
abbrev pub level : String → Candidate → ℕ
level arg c = if str_eq c.id arg then 0 else level_from 1 (tiers arg) c

abbrev pub Among : Candidate → List Candidate → Type 0
Among c [] = ⊥
Among c (d ∷ ds) = (c ≡ d) ⊎ Among c ds

pub All-Among :
    (P : Candidate → Type 0) (pool : List Candidate) (c : Candidate)
    → All P pool
    → Among c pool
    → P c
All-Among P [] c all at = absurd at
All-Among P (d ∷ ds) c (p, all) (inl e) = rw e p
All-Among P (d ∷ ds) c (p, all) (inr at) = All-Among P ds c all at

-- What a result has to be: the strictest candidate, which no other one equals in strictness unless it
-- is named by its ID; or several that share the strictest level; or no candidate matches.
abbrev pub IsBest : (Candidate → ℕ) → ℕ → List Candidate → Resolution → Type 0
IsBest lv bound pool (found c) =
    Among c pool
    × (lv c < bound)
    × All (λ d. (lv c ≤ lv d) × (lv d ≡ lv c → (lv c ≡ 0) ⊎ (d ≡ c))) pool
IsBest lv bound pool (ambiguous cs) =
    (l : ℕ) × (l < bound)
    × All (λ d. l ≤ lv d) pool
    × All (λ d. (lv d ≡ l) × Among d pool) cs
    × All (λ d. lv d ≡ l → Among d cs) pool
    × (2 ≤ length cs)
IsBest lv bound pool (refused e) = All (λ d. lv d ≡ bound) pool

pub hits_of-Among :
    (match : Candidate → Bool) (pool : List Candidate)
    → All (λ d. (match d ≡ true) × Among d pool) (hits_of match pool)
unfolding hits_of
hits_of-Among match [] = tt
hits_of-Among match (c ∷ pool) =
    let rest =
      All-map (λ d. (match d ≡ true) × Among d pool) (λ d. (match d ≡ true) × Among d (c ∷ pool))
        (hits_of match pool) (λ d (m, at). (m, inr at)) (hits_of-Among match pool) in
    elim (Bool-cases (match c)) [ inl m ↦ rw m ((m, inl refl), rest) | inr m ↦ rw m rest ]

pub hit :
    (match : Candidate → Bool) (c : Candidate) (pool : List Candidate)
    → match c ≡ true
    → hits_of match (c ∷ pool) ≡ c ∷ hits_of match pool
unfolding hits_of
hit match c pool m = rw m refl

no_hit :
    (match : Candidate → Bool) (c : Candidate) (pool : List Candidate)
    → match c ≡ false
    → hits_of match (c ∷ pool) ≡ hits_of match pool
unfolding hits_of
no_hit match c pool m = rw m refl

-- Every candidate that matches is a hit.
pub Among-hits_of :
    (match : Candidate → Bool) (pool : List Candidate)
    → All (λ d. match d ≡ true → Among d (hits_of match pool)) pool
Among-hits_of match [] = tt
Among-hits_of match (c ∷ pool) = elim (Bool-cases (match c)) [
  | inl m ↦
      subst (λ hs. All (λ d. match d ≡ true → Among d hs) (c ∷ pool)) (sym (hit match c pool m))
        (
          λ h. inl refl,
          All-map (λ d. match d ≡ true → Among d (hits_of match pool))
              (λ d. match d ≡ true → Among d (c ∷ hits_of match pool)) pool (λ d f h. inr (f h))
              (Among-hits_of match pool),
        )
  | inr m ↦
      subst (λ hs. All (λ d. match d ≡ true → Among d hs) (c ∷ pool)) (sym (no_hit match c pool m))
        (λ h. absurd (ground (arith, h, m)), Among-hits_of match pool)
]

pub level_from-le : (n : ℕ) (ms : List (Candidate → Bool)) (c : Candidate) → n ≤ level_from n ms c
level_from-le n [] c = omega arith
level_from-le n (match ∷ ms) c = ground (arith, level_from-le (suc n) ms c)

insert_hit-All :
    (P : Candidate → Type 0) (c : Candidate) (cs : List Candidate)
    → P c
    → All P cs
    → All P (insert_hit c cs) × (length (insert_hit c cs) ≡ suc (length cs))
unfolding insert_hit
insert_hit-All P c [] p all = ((p, tt), refl)
insert_hit-All P c (d ∷ ds) p (q, all) =
    let (more, len) = insert_hit-All P c ds p all in
    elim (Bool-cases (text_less d.name c.name)) [
      | inl less ↦ rw less ((q, more), ap suc len)
      | inr other ↦ rw other ((p, (q, all)), refl)
    ]

pub sort_hits-All :
    (P : Candidate → Type 0) (cs : List Candidate)
    → All P cs
    → All P (sort_hits cs) × (length (sort_hits cs) ≡ length cs)
unfolding sort_hits
sort_hits-All P [] all = (tt, refl)
sort_hits-All P (c ∷ cs) (p, all) =
    let (more, len) = sort_hits-All P cs all in
    let (whole, len') = insert_hit-All P c (sort_hits cs) p more in (whole, len' ∙ ap suc len)

insert_hit-Among :
    (c d : Candidate) (cs : List Candidate) → (d ≡ c) ⊎ Among d cs → Among d (insert_hit c cs)
unfolding insert_hit
insert_hit-Among c d [] at = at
insert_hit-Among c d (x ∷ cs) at = elim (Bool-cases (text_less x.name c.name)) [
  | inr other ↦ rw other at
  | inl less ↦ rw less (elim at [
    | inl e ↦ inr (insert_hit-Among c d cs (inl e))
    | inr (inl e) ↦ inl e
    | inr (inr at') ↦ inr (insert_hit-Among c d cs (inr at'))
  ])
]

-- Sorting loses no hit.
pub sort_hits-Among : (d : Candidate) (cs : List Candidate) → Among d cs → Among d (sort_hits cs)
unfolding sort_hits
sort_hits-Among d [] at = at
sort_hits-Among d (c ∷ cs) (inl e) = insert_hit-Among c d (sort_hits cs) (inl e)
sort_hits-Among d (c ∷ cs) (inr at) =
    insert_hit-Among c d (sort_hits cs) (inr (sort_hits-Among d cs at))

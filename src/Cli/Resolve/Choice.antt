-- ===== src/Cli/Resolve/Choice.antt =====
-- Which candidate is picked.
use mathlib.Core.Path.{subst}
use better_nm.Prelude.{
  ℕ, suc, ◌+◌, ◌≤◌, ◌<◌, String, List, [], ◌∷◌, Bool, true, false, none, some, str_eq, length, All,
  All-map, ◌≡◌, ◌⊎◌, inl, inr, refl, sym, ◌∙◌, arith, Bool-cases, Option-cases,
}
use better_nm.Core.Errors.{GoError}
use better_nm.Cli.Resolve.{
  Candidate, tiers, find_id, hits_of, sort_hits, found, ambiguous, refused, pick, choose, no_match,
  resolve,
}
use better_nm.Cli.Resolve.Levels.{
  level_from, level, Among, IsBest, hits_of-Among, Among-hits_of, level_from-le, sort_hits-All,
  sort_hits-Among,
}
use better_nm.Cli.Resolve.Agree.{IsBest-agree}

level_from-hit :
    (n : ℕ) (match : Candidate → Bool) (ms : List (Candidate → Bool)) (c : Candidate)
    → match c ≡ true
    → level_from n (match ∷ ms) c ≡ n
level_from-hit n match ms c m = rw m refl

level_from-miss :
    (n : ℕ) (match : Candidate → Bool) (ms : List (Candidate → Bool)) (c : Candidate)
    → match c ≡ false
    → level_from n (match ∷ ms) c ≡ level_from (suc n) ms c
level_from-miss n match ms c m = rw m refl

module _ (match : Candidate → Bool) (ms : List (Candidate → Bool)) (pool : List Candidate)
    (n : ℕ) where
  abbrev lv : Candidate → ℕ
  lv = level_from n (match ∷ ms)

  -- A candidate that is as strict as a hit is a hit.
  level-hit : (d : Candidate) → lv d ≡ n → match d ≡ true
  level-hit d e = elim (Bool-cases (match d)) [
    | inl m ↦ m
    | inr m ↦ absurd (omega (arith, e, level_from-miss n match ms d m, level_from-le (suc n) ms d))
  ]

  one_hit :
      (bound : ℕ) (c : Candidate)
      → n < bound
      → hits_of match pool ≡ c ∷ []
      → IsBest lv bound pool (found c)
  one_hit bound c below only =
      let hits =
        subst (All (λ d. (match d ≡ true) × Among d pool)) only (hits_of-Among match pool) in
      let at = level_from-hit n match ms c hits.0.0 in
      (
        hits.0.1,
        omega (arith, at),
        All-map (λ d. match d ≡ true → Among d (hits_of match pool)) _ pool
            (λ d f. (
              omega (arith, at, level_from-le n (match ∷ ms) d),
              λ same. inr (only_one d c (subst (Among d) only (f (level-hit d (same ∙ at))))),
            ))
            (Among-hits_of match pool),
      )
    where
      only_one : (d c : Candidate) → Among d (c ∷ []) → d ≡ c
      only_one d c (inl e) = e
      only_one d c (inr nowhere) = absurd nowhere

  some_hits :
      (bound : ℕ) (c d : Candidate) (ds : List Candidate)
      → n < bound
      → hits_of match pool ≡ c ∷ (d ∷ ds)
      → IsBest lv bound pool (ambiguous (sort_hits (c ∷ (d ∷ ds))))
  some_hits bound c d ds below several =
      let hits =
        subst (All (λ x. (match x ≡ true) × Among x pool)) several (hits_of-Among match pool) in
      let (sorted, len) =
        sort_hits-All (λ x. (lv x ≡ n) × Among x pool) (c ∷ (d ∷ ds))
          (All-map (λ x. (match x ≡ true) × Among x pool) (λ x. (lv x ≡ n) × Among x pool)
            (c ∷ (d ∷ ds)) (λ x (m, at). (level_from-hit n match ms x m, at)) hits) in
      (
        n,
        below,
        All-map (λ x. match x ≡ true → Among x (hits_of match pool)) (λ x. n ≤ lv x) pool
            (λ x f. level_from-le n (match ∷ ms) x) (Among-hits_of match pool),
        sorted,
        All-map (λ x. match x ≡ true → Among x (hits_of match pool)) _ pool
            (λ x f at.
              sort_hits-Among x (c ∷ (d ∷ ds)) (subst (Among x) several (f (level-hit x at))))
            (Among-hits_of match pool),
        omega (arith, len),
      )

  -- Without a hit the levels of the pool are those of the later tests.
  no_hits : hits_of match pool ≡ [] → All (λ d. lv d ≡ level_from (suc n) ms d) pool
  no_hits without =
      All-map (λ d. match d ≡ true → Among d (hits_of match pool)) _ pool
        (λ d f. elim (Bool-cases (match d)) [
          | inl m ↦ absurd (subst (Among d) without (f m))
          | inr m ↦ level_from-miss n match ms d m
        ])
        (Among-hits_of match pool)

List-cases :
    (hs : List Candidate)
    → (hs ≡ [])
      ⊎ ((c : Candidate) × (hs ≡ c ∷ []))
      ⊎ ((c d : Candidate) × (ds : List Candidate) × (hs ≡ c ∷ (d ∷ ds)))
List-cases [] = inl refl
List-cases (c ∷ []) = inr (inl (c, refl))
List-cases (c ∷ (d ∷ ds)) = inr (inr (c, d, ds, refl))

All-at_level : (n : ℕ) (pool : List Candidate) → All (λ d. n ≡ n) pool
All-at_level n [] = tt
All-at_level n (c ∷ pool) = (refl, All-at_level n pool)

choose-IsBest :
    (ms : List (Candidate → Bool)) (n bound : ℕ) (pool : List Candidate) (e : GoError)
    → bound ≡ n + length ms
    → IsBest (level_from n ms) bound pool (choose ms pool (refused e))
unfolding choose pick
choose-IsBest [] n bound pool e is =
    subst (λ b. All (λ d. n ≡ b) pool) (omega (arith, is)) (All-at_level n pool)
choose-IsBest (match ∷ ms) n bound pool e is = elim (List-cases (hits_of match pool)) [
  | inl without ↦ rw without (
      IsBest-agree (level_from n (match ∷ ms)) (level_from (suc n) ms) bound pool _
        (no_hits match ms pool n without)
        (choose-IsBest ms (suc n) bound pool e (omega (arith, is))))
  | inr (inl (c, only)) ↦ rw only (one_hit match ms pool n bound c (omega (arith, is)) only)
  | inr (inr (c, d, ds, several)) ↦
      rw several (some_hits match ms pool n bound c d ds (omega (arith, is)) several)
]

find_id-some :
    (arg : String) (pool : List Candidate) (c : Candidate)
    → find_id arg pool ≡ some c
    → Among c pool × (str_eq c.id arg ≡ true)
unfolding find_id
find_id-some arg [] c h = cc
find_id-some arg (d ∷ ds) c h = elim (Bool-cases (str_eq d.id arg)) [
  | inl is ↦
      let e : d ≡ c = ground (arith, h, is) in
      (inl (sym e), subst (λ x. str_eq x.id arg ≡ true) e is)
  | inr other ↦ let (at, is) = find_id-some arg ds c (rw other at h) in (inr at, is)
]

find_id-none :
    (arg : String) (pool : List Candidate)
    → find_id arg pool ≡ none
    → All (λ d. level arg d ≡ level_from 1 (tiers arg) d) pool
unfolding find_id
find_id-none arg [] h = tt
find_id-none arg (d ∷ ds) h = elim (Bool-cases (str_eq d.id arg)) [
  | inl is ↦ absurd (ground (arith, h, is))
  | inr other ↦ (rw other refl, find_id-none arg ds (rw other at h))
]

All-every : (pool : List Candidate) (P : Candidate → Type 0) → ((d : Candidate) → P d) → All P pool
All-every [] P f = tt
All-every (c ∷ pool) P f = (f c, All-every pool P f)

-- For an argument that is not empty `resolve` picks the candidate that it names most strictly (by its
-- ID, exactly, up to case, by a prefix of the ID, by a prefix of a name), and no other candidate is
-- named as strictly, unless it is picked by its ID; the two or more candidates that an ambiguity lists
-- are all of the pool's at the strictest level, and only those; and it finds nothing if no candidate
-- matches at all.
pub resolve-IsBest :
    (arg : String) (pool : List Candidate) (what : String)
    → str_eq arg "" ≡ false
    → IsBest (level arg) 5 pool (resolve arg pool what)
unfolding resolve
resolve-IsBest arg pool what given = rw given (elim (Option-cases (find_id arg pool)) [
  | inr (c, e) ↦
      let (at, is) = find_id-some arg pool c e in
      let zero_level : level arg c ≡ 0 = rw is refl in
      rw e (
        at,
        omega (arith, zero_level),
        All-every pool _ (λ d. (omega (arith, zero_level), λ same. inl zero_level)),
      )
  | inl e ↦ rw e (
      IsBest-agree (level arg) (level_from 1 (tiers arg)) 5 pool _ (find_id-none arg pool e)
        (choose-IsBest (tiers arg) 1 5 pool (no_match arg pool what) refl))
])

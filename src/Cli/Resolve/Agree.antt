-- ===== src/Cli/Resolve/Agree.antt =====
-- internal/cli/resolve.go: a choice depends on the levels of the candidates only.
use better_nm.Prelude.{ℕ, ◌≤◌, List, [], ◌∷◌, All, All-map, ◌≡◌, ◌⊎◌, inl, inr, sym, ◌∙◌, arith}
use better_nm.Cli.Resolve.{Candidate, Resolution, found, ambiguous, refused}
use better_nm.Cli.Resolve.Levels.{Among, All-Among, IsBest}

All-both :
    (P Q : Candidate → Type 0) (pool : List Candidate)
    → All P pool
    → All Q pool
    → All (λ d. P d × Q d) pool
All-both P Q [] a b = tt
All-both P Q (c ∷ pool) (p, a) (q, b) = ((p, q), All-both P Q pool a b)

-- Levels that agree on the pool have the same best.
pub IsBest-agree :
    (old new : Candidate → ℕ) (bound : ℕ) (pool : List Candidate) (r : Resolution)
    → All (λ d. old d ≡ new d) pool
    → IsBest new bound pool r
    → IsBest old bound pool r
IsBest-agree old new bound pool (found c) same (at, below, best) =
    let e = All-Among (λ d. old d ≡ new d) pool c same at in
    (
      at,
      omega (arith, e, below),
      All-map (λ d. (old d ≡ new d) × ((new c ≤ new d) × (new d ≡ new c → (new c ≡ 0) ⊎ (d ≡ c)))) _
          pool
          (λ d (f, (le, unique)). (
            omega (arith, e, f, le),
            λ h. elim (unique (sym f ∙ h ∙ e)) [ inl z ↦ inl (e ∙ z) | inr is ↦ inr is ],
          ))
          (All-both _ _ pool same best),
    )
IsBest-agree old new bound pool (ambiguous cs) same (l, below, low, all, every, two) = (
  l,
  below,
  All-map (λ d. (old d ≡ new d) × (l ≤ new d)) (λ d. l ≤ old d) pool
      (λ d (f, le). omega (arith, f, le)) (All-both _ _ pool same low),
  All-map (λ d. (new d ≡ l) × Among d pool) (λ d. (old d ≡ l) × Among d pool) cs
      (λ d (e, at). (All-Among (λ x. old x ≡ new x) pool d same at ∙ e, at)) all,
  All-map (λ d. (old d ≡ new d) × (new d ≡ l → Among d cs)) (λ d. old d ≡ l → Among d cs) pool
      (λ d (e, f) h. f (sym e ∙ h)) (All-both _ _ pool same every),
  two,
)
IsBest-agree old new bound pool (refused e) same all =
    All-map (λ d. (old d ≡ new d) × (new d ≡ bound)) (λ d. old d ≡ bound) pool (λ d (f, g). f ∙ g)
      (All-both _ _ pool same all)

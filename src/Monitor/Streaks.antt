-- ===== src/Monitor/Streaks.antt =====
-- How many evaluations it takes an anchor to degrade and to recover.
use better_nm.Prelude.{ℕ, ◌+◌, ◌≤◌, ◌<◌, List, [], ◌∷◌, true, length, All, ◌≡◌, arith}
use better_nm.Core.Monitor.{ok, degraded}
use better_nm.Monitor.Config.{EngineConfig}
use better_nm.Monitor.Anchor.{AnchorState, Verdict, is_bad, evaluate_state}

module _ {F : Type 0} (c : EngineConfig F) where
  -- One evaluation after the other, each at its time.
  unfoldable pub evaluate_all : List (ℕ × Verdict) → AnchorState F → AnchorState F
  evaluate_all [] a = a
  evaluate_all ((at, v) ∷ vs) a = evaluate_all vs (evaluate_state a.state c v at a)

  evaluate_ok_any :
      (v : Verdict) (at : ℕ) (a : AnchorState F)
      → a.state ≡ ok
      → a.bad_streak + 1 < c.degrade_streak
      → let a' = evaluate_state a.state c v at a in
        (a'.state ≡ ok) × (a'.bad_streak ≤ a.bad_streak + 1)
  unfolding evaluate_state
  evaluate_ok_any v at a was few = ground arith

  evaluate_ok_bad :
      (v : Verdict) (at : ℕ) (a : AnchorState F)
      → a.state ≡ ok
      → is_bad v ≡ true
      → a.bad_streak + 1 < c.degrade_streak
      → let a' = evaluate_state a.state c v at a in
        (a'.state ≡ ok) × (a'.bad_streak ≡ a.bad_streak + 1)
  unfolding evaluate_state
  evaluate_ok_bad v at a was bad few = ground arith

  evaluate_ok_last :
      (v : Verdict) (at : ℕ) (a : AnchorState F)
      → a.state ≡ ok
      → is_bad v ≡ true
      → a.bad_streak + 1 ≡ c.degrade_streak
      → (evaluate_state a.state c v at a).state ≡ degraded
  unfolding evaluate_state
  evaluate_ok_last v at a was bad all = ground arith

  ok_run :
      (vs : List (ℕ × Verdict)) (a : AnchorState F)
      → a.state ≡ ok
      → a.bad_streak + length vs < c.degrade_streak
      → (evaluate_all vs a).state ≡ ok
  unfolding evaluate_all
  ok_run [] a was few = was
  ok_run ((at, v) ∷ vs) a was few =
      let (still, le) = evaluate_ok_any v at a was (omega arith) in
      ok_run vs (evaluate_state a.state c v at a) still (omega arith)

  bad_run :
      (vs : List (ℕ × Verdict)) (a : AnchorState F)
      → a.state ≡ ok
      → a.bad_streak < c.degrade_streak
      → All (λ e. is_bad e.1 ≡ true) vs
      → a.bad_streak + length vs ≡ c.degrade_streak
      → (evaluate_all vs a).state ≡ degraded
  unfolding evaluate_all
  bad_run [] a was below bad all = absurd (omega arith)
  bad_run ((at, v) ∷ []) a was below bad all = evaluate_ok_last v at a was bad.0 (omega arith)
  bad_run ((at, v) ∷ (w ∷ vs)) a was below bad all =
      let (still, more) = evaluate_ok_bad v at a was bad.0 (omega arith) in
      bad_run (w ∷ vs) (evaluate_state a.state c v at a) still (omega arith) bad.1 (omega arith)

  -- An anchor that is `ok` and has no bad streak stays `ok` for fewer than `DegradeStreak`
  -- evaluations, whatever they say, and is `degraded` after exactly that many bad ones in a row.
  pub degrade_exact :
      (vs : List (ℕ × Verdict)) (a : AnchorState F)
      → a.state ≡ ok
      → a.bad_streak ≡ 0
      → 0 < c.degrade_streak
      → (length vs < c.degrade_streak → (evaluate_all vs a).state ≡ ok)
        × (length vs ≡ c.degrade_streak
            → All (λ e. is_bad e.1 ≡ true) vs
            → (evaluate_all vs a).state ≡ degraded)
  degrade_exact vs a was none pos = (
    λ few. ok_run vs a was (omega arith),
    λ all bad. bad_run vs a was (omega arith) bad (omega arith),
  )

  evaluate_degraded_any :
      (v : Verdict) (at : ℕ) (a : AnchorState F)
      → a.state ≡ degraded
      → a.good_streak + 1 < c.recover_streak
      → let a' = evaluate_state a.state c v at a in
        (a'.state ≡ degraded) × (a'.good_streak ≤ a.good_streak + 1)
  unfolding evaluate_state
  evaluate_degraded_any v at a was few = ground arith

  evaluate_degraded_good :
      (v : Verdict) (at : ℕ) (a : AnchorState F)
      → a.state ≡ degraded
      → v.good ≡ true
      → a.good_streak + 1 < c.recover_streak
      → let a' = evaluate_state a.state c v at a in
        (a'.state ≡ degraded) × (a'.good_streak ≡ a.good_streak + 1)
  unfolding evaluate_state
  evaluate_degraded_good v at a was good few = ground arith

  evaluate_degraded_last :
      (v : Verdict) (at : ℕ) (a : AnchorState F)
      → a.state ≡ degraded
      → v.good ≡ true
      → a.good_streak + 1 ≡ c.recover_streak
      → (evaluate_state a.state c v at a).state ≡ ok
  unfolding evaluate_state
  evaluate_degraded_last v at a was good all = ground arith

  degraded_run :
      (vs : List (ℕ × Verdict)) (a : AnchorState F)
      → a.state ≡ degraded
      → a.good_streak + length vs < c.recover_streak
      → (evaluate_all vs a).state ≡ degraded
  unfolding evaluate_all
  degraded_run [] a was few = was
  degraded_run ((at, v) ∷ vs) a was few =
      let (still, le) = evaluate_degraded_any v at a was (omega arith) in
      degraded_run vs (evaluate_state a.state c v at a) still (omega arith)

  good_run :
      (vs : List (ℕ × Verdict)) (a : AnchorState F)
      → a.state ≡ degraded
      → a.good_streak < c.recover_streak
      → All (λ e. e.1.good ≡ true) vs
      → a.good_streak + length vs ≡ c.recover_streak
      → (evaluate_all vs a).state ≡ ok
  unfolding evaluate_all
  good_run [] a was below good all = absurd (omega arith)
  good_run ((at, v) ∷ []) a was below good all =
      evaluate_degraded_last v at a was good.0 (omega arith)
  good_run ((at, v) ∷ (w ∷ vs)) a was below good all =
      let (still, more) = evaluate_degraded_good v at a was good.0 (omega arith) in
      good_run (w ∷ vs) (evaluate_state a.state c v at a) still (omega arith) good.1 (omega arith)

  -- An anchor that is `degraded` and has no good streak stays so for fewer than `RecoverStreak`
  -- evaluations, whatever they say, and is `ok` after exactly that many good ones in a row.
  pub recover_exact :
      (vs : List (ℕ × Verdict)) (a : AnchorState F)
      → a.state ≡ degraded
      → a.good_streak ≡ 0
      → 0 < c.recover_streak
      → (length vs < c.recover_streak → (evaluate_all vs a).state ≡ degraded)
        × (length vs ≡ c.recover_streak
            → All (λ e. e.1.good ≡ true) vs
            → (evaluate_all vs a).state ≡ ok)
  recover_exact vs a was none pos = (
    λ few. degraded_run vs a was (omega arith),
    λ all good. good_run vs a was (omega arith) good (omega arith),
  )

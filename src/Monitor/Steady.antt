-- ===== src/Monitor/Steady.antt =====
-- One anchor between two samples.
use better_nm.Prelude.{
  ℕ, ◌-◌, ◌≤◌, ◌<◌, List, true, false, Option, none, some, length, ltb, length-drop, ◌≡◌, ◌⊎◌, inl,
  inr, refl, arith, Bool-cases,
}
use better_nm.Core.Monitor.{Sample, learning, ok, degraded, Baseline}
use better_nm.Monitor.Floats.{Floats}
use better_nm.Monitor.Config.{EngineConfig, with_defaults}
use better_nm.Monitor.Anchor.{
  AnchorState, Verdict, is_learning, evaluate_state, relearn, trim, judge, evaluate, new_anchor,
}
use better_nm.Monitor.Engine.{feed}

-- The counts of a configuration make sense.
pub record IsUsable {F : Type 0} (c : EngineConfig F) : Type 0 where
  pub window_pos : 0 < c.window
  pub min_pos : 0 < c.min_samples
  pub min_fits : c.min_samples ≤ c.window
  pub current_pos : 0 < c.current_window
  pub degrade_pos : 0 < c.degrade_streak
  pub recover_pos : 0 < c.recover_streak

-- Whatever configuration is asked for, the effective one is usable.
pub with_defaults-IsUsable :
    {F : Type 0} ⦃fl : Floats F⦄ (c : EngineConfig F) → IsUsable (with_defaults c)
unfolding with_defaults
with_defaults-IsUsable c = ground arith

-- The window is bounded; the anchor learns exactly while it has too few samples, and is `ok` or
-- `degraded` otherwise; and no streak that has not ended reaches its limit.
pub record IsSteady {F : Type 0} (c : EngineConfig F) (a : AnchorState F) : Type 0 where
  pub fits : length a.samples ≤ c.window
  pub learns : is_learning a.state ≡ ltb (length a.samples) c.min_samples
  pub known : (a.state ≡ learning) ⊎ (a.state ≡ ok) ⊎ (a.state ≡ degraded)
  pub bad : a.state ≡ ok → a.bad_streak < c.degrade_streak
  pub good : a.state ≡ degraded → a.good_streak < c.recover_streak

module _ {F : Type 0} where
  pub length-trim-le : (window : ℕ) (ss : List (Sample F)) → length (trim window ss) ≤ window
  unfolding trim
  length-trim-le window ss = ground (arith, length-drop (length ss - window) ss)

  IsSteady-baseline :
      (c : EngineConfig F) (a : AnchorState F) (b : Baseline F)
      → IsSteady c a
      → IsSteady c (record a { baseline = b })
  IsSteady-baseline c a b st = record {
    fits = st.fits;
    learns = st.learns;
    known = st.known;
    bad = st.bad;
    good = st.good;
  }

  relearn-IsSteady :
      (c : EngineConfig F) (at : ℕ) (a : AnchorState F)
      → length a.samples ≤ c.window
      → ltb (length a.samples) c.min_samples ≡ true
      → IsSteady c (relearn at a)
  unfolding relearn
  relearn-IsSteady c at a fits few = ground arith

  evaluate_state-IsSteady :
      (c : EngineConfig F) (v : Verdict) (at : ℕ) (a : AnchorState F)
      → IsUsable c
      → length a.samples ≤ c.window
      → ltb (length a.samples) c.min_samples ≡ false
      → (a.state ≡ learning) ⊎ (a.state ≡ ok) ⊎ (a.state ≡ degraded)
      → IsSteady c (evaluate_state a.state c v at a)
  unfolding evaluate_state
  evaluate_state-IsSteady c v at a u fits many known = ground arith

  module _ ⦃fl : Floats F⦄ where
    evaluate-IsSteady :
        (c : EngineConfig F) (at : ℕ) (a : AnchorState F)
        → IsUsable c
        → length a.samples ≤ c.window
        → (a.state ≡ learning) ⊎ (a.state ≡ ok) ⊎ (a.state ≡ degraded)
        → IsSteady c (evaluate c at a)
    unfolding evaluate
    evaluate-IsSteady c at a u fits known =
        elim (Bool-cases (ltb (length a.samples) c.min_samples)) [
          | inl few ↦ rw few (relearn-IsSteady c at a fits few)
          | inr many ↦
              rw many (evaluate_state-IsSteady c (judge c a.samples) at a u fits many known)
        ]

    -- A sample keeps an anchor steady, and makes a new one steady.
    pub feed-IsSteady :
        (c : EngineConfig F) (s : Sample F) (old : Option (AnchorState F))
        → IsUsable c
        → ((a : AnchorState F) → old ≡ some a → IsSteady c a)
        → IsSteady c (feed c s old)
    unfolding feed new_anchor
    feed-IsSteady c s none u steady =
        IsSteady-baseline c _ _
          (evaluate-IsSteady c s.time _ u (length-trim-le c.window _) (inl refl))
    feed-IsSteady c s (some a) u steady =
        IsSteady-baseline c _ _
          (evaluate-IsSteady c s.time _ u (length-trim-le c.window _) (steady a refl).known)

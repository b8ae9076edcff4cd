-- ===== src/Monitor/Verdicts.antt =====
-- The verdict on a Network Key, and the engine's invariant.
use mathlib.Core.Path.{subst}
use better_nm.Prelude.{
  ℕ, String, List, [], ◌∷◌, Bool, true, false, not, ◌&&◌, ◌||◌, some, Assoc, lookup, insert,
  Distinct, insert-Distinct, lookup-insert, str_eq, ◌≡◌, ◌≢◌, ◌↔◌, inl, inr, refl, sym, ◌∙◌, arith,
  eq_iff, Bool-cases, Option-cases,
}
use better_nm.Core.Monitor.{Sample, BaselineState, degraded}
use better_nm.Monitor.Floats.{Floats}
use better_nm.Monitor.Config.{EngineConfig, with_defaults}
use better_nm.Monitor.Anchor.{AnchorState, is_learning, is_degraded}
use better_nm.Monitor.Engine.{
  gateway_anchor, KeyState, Engine, same_state, derive_from, derive_key_state, key_of, settle,
  new_engine, feed, add, add_all,
}
use better_nm.Monitor.Steady.{IsUsable, IsSteady, with_defaults-IsUsable, feed-IsSteady}

same_state_eq : (s t : BaselineState) → same_state s t ≡ true → s ≡ t
same_state_eq s t h = ground arith

module _ {F : Type 0} where
  -- An anchor other than the gateway is degraded.
  abbrev pub PublicDegraded : Assoc (AnchorState F) → Type 0
  PublicDegraded m =
      (name : String) × (a : AnchorState F) × (lookup name m ≡ some a)
      × (name ≢ gateway_anchor)
      × (a.state ≡ degraded)

  degraded_of :
      (m : Assoc (AnchorState F)) (all : Bool) (name : String) (a : AnchorState F)
      → lookup name m ≡ some a
      → name ≢ gateway_anchor
      → a.state ≡ degraded
      → derive_from all m ≡ degraded
  unfolding derive_from lookup
  degraded_of [] all name a at public bad = cc
  degraded_of ((n, b) ∷ m) all name a at public bad = ground (
    arith,
    eq_iff n name,
    eq_iff n gateway_anchor,
    degraded_of m (all && is_learning b.state) name a,
  )

  of_degraded :
      (m : Assoc (AnchorState F)) (all : Bool)
      → Distinct m
      → derive_from all m ≡ degraded
      → PublicDegraded m
  unfolding derive_from lookup
  of_degraded [] true d h = cc
  of_degraded [] false d h = cc
  of_degraded ((n, b) ∷ m) all d h =
      elim (Bool-cases (not (str_eq n gateway_anchor) && is_degraded b.state)) [
        | inl here ↦ (
          n,
          b,
          ground (arith, eq_iff n n),
          ground (arith, eq_iff n gateway_anchor),
          ground arith,
        )
        | inr there ↦
            let (name, a, at, public, bad) =
              of_degraded m (all && is_learning b.state) d.1 (ground arith) in
            (name, a, ground (arith, eq_iff n name), public, bad)
      ]

  -- What holds of a key: its state is what its anchors derive, and every anchor is steady.
  pub record IsSettled (c : EngineConfig F) (ks : KeyState F) : Type 0 where
    pub distinct : Distinct ks.anchors
    pub derived : ks.state ≡ derive_key_state ks.anchors
    pub steady : (n : String) (a : AnchorState F) → lookup n ks.anchors ≡ some a → IsSteady c a

  pub record IsGood (c : EngineConfig F) (e : Engine F) : Type 0 where
    pub config : e.config ≡ c
    pub keys : (k : String) (ks : KeyState F) → lookup k e.keys ≡ some ks → IsSettled c ks

  key_of-IsSettled :
      (c : EngineConfig F) (e : Engine F) (k : String) → IsGood c e → IsSettled c (key_of k e)
  unfolding key_of derive_key_state lookup
  key_of-IsSettled c e k g = elim (Option-cases (lookup k e.keys)) [
    | inl free ↦
        rw free (record { distinct = tt; derived = refl; steady = λ n a at. absurd (ground arith) })
    | inr (ks, at) ↦ rw at (g.keys k ks at)
  ]

  -- The state that a key derives is `degraded` exactly if an anchor other than the gateway is.
  derive_iff :
      (m : Assoc (AnchorState F)) → Distinct m → (derive_key_state m ≡ degraded) ↔ PublicDegraded m
  unfolding derive_key_state lookup
  derive_iff [] d = (λ h. cc, λ h. cc)
  derive_iff (b ∷ m) d = (
    of_degraded (b ∷ m) true d,
    λ (name, a, at, public, bad). degraded_of (b ∷ m) true name a at public bad,
  )

  insert-IsSteady :
      (c : EngineConfig F) (anchor : String) (a : AnchorState F) (m : Assoc (AnchorState F))
      → IsSteady c a
      → ((n : String) (b : AnchorState F) → lookup n m ≡ some b → IsSteady c b)
      → (n : String) (b : AnchorState F) → lookup n (insert anchor a m) ≡ some b
      → IsSteady c b
  insert-IsSteady c anchor a m new old n b at = elim (Bool-cases (str_eq anchor n)) [
    | inl same ↦ let eq : a ≡ b = ground (arith, lookup-insert anchor n a m) in rw (← eq) new
    | inr other ↦ old n b (ground (arith, lookup-insert anchor n a m))
  ]

  insert-IsGood :
      (c : EngineConfig F) (key : String) (e : Engine F) (ks : KeyState F)
      → IsGood c e
      → IsSettled c ks
      → IsGood c (record e { keys = insert key ks e.keys })
  insert-IsGood c key e ks g new = record {
    config = g.config;
    keys = λ k b at. elim (Bool-cases (str_eq key k)) [
      | inl same ↦ let eq : ks ≡ b = ground (arith, lookup-insert key k ks e.keys) in rw (← eq) new
      | inr other ↦ g.keys k b (ground (arith, lookup-insert key k ks e.keys))
    ];
  }

  settle-IsSettled :
      (c : EngineConfig F) (key anchor : String) (ks : KeyState F) (a : AnchorState F) (at : ℕ)
      → Distinct ks.anchors
      → ((n : String) (b : AnchorState F) → lookup n ks.anchors ≡ some b → IsSteady c b)
      → IsSettled c (settle key ks anchor a at).0
  unfolding settle
  settle-IsSettled c key anchor ks a at d steady =
      elim (Bool-cases (same_state (derive_key_state ks.anchors) ks.state)) [
        | inl same ↦
            rw same
              (record { distinct = d; derived = sym (same_state_eq _ _ same); steady = steady })
        | inr new ↦ rw new (record { distinct = d; derived = refl; steady = steady })
      ]

  module _ ⦃fl : Floats F⦄ where
    add-IsGood :
        (c : EngineConfig F) (s : Sample F) (e : Engine F)
        → IsUsable c
        → IsGood c e
        → IsGood c (add s e).0
    unfolding add
    add-IsGood c s e u g = elim (Bool-cases (str_eq s.network_key "" || str_eq s.anchor "")) [
      | inl skip ↦ rw skip g
      | inr go ↦ rw go (insert-IsGood c s.network_key e _ g (added g))
    ]
      where
        added :
            IsGood c e
            → let ks = key_of s.network_key e in
              let a = feed e.config s (lookup s.anchor ks.anchors) in
              IsSettled c
                (settle s.network_key
                  (record ks { anchors = insert s.anchor a ks.anchors })
                  s.anchor
                  a
                  s.time).0
        added g =
            let ks = key_of s.network_key e in
            let old = key_of-IsSettled c e s.network_key g in
            let a = feed e.config s (lookup s.anchor ks.anchors) in
            settle-IsSettled c s.network_key s.anchor
              (record ks { anchors = insert s.anchor a ks.anchors }) a s.time
              (insert-Distinct s.anchor a ks.anchors old.distinct)
              (insert-IsSteady c s.anchor a ks.anchors
                (subst (λ cfg. IsSteady c (feed cfg s (lookup s.anchor ks.anchors))) (sym g.config)
                  (feed-IsSteady c s (lookup s.anchor ks.anchors) u (old.steady s.anchor)))
                old.steady)

    pub add_all-IsGood :
        (c : EngineConfig F) (ss : List (Sample F)) (e : Engine F)
        → IsUsable c
        → IsGood c e
        → IsGood c (add_all ss e).0
    unfolding add_all
    add_all-IsGood c [] e u g = g
    add_all-IsGood c (s ∷ ss) e u g = add_all-IsGood c ss (add s e).0 u (add-IsGood c s e u g)

    pub new_engine-IsGood : (c : EngineConfig F) → IsGood (with_defaults c) (new_engine c)
    unfolding new_engine lookup
    new_engine-IsGood c = record { config = refl; keys = λ k ks at. absurd (ground arith) }

    -- After any samples, whatever the configuration asked for: a key's state is what its anchors
    -- derive, no window outgrows its bound, an anchor learns exactly while it has too few samples,
    -- and no streak below its limit has gone unnoticed.
    pub engine-IsGood :
        (c : EngineConfig F) (ss : List (Sample F))
        → IsGood (with_defaults c) (add_all ss (new_engine c)).0
    engine-IsGood c ss =
        add_all-IsGood (with_defaults c) ss (new_engine c) (with_defaults-IsUsable c)
          (new_engine-IsGood c)

    -- After any samples, a key that the engine knows is degraded exactly if an anchor of it other
    -- than the gateway is.
    pub degraded-iff-public :
        (c : EngineConfig F) (ss : List (Sample F)) (k : String) (ks : KeyState F)
        → lookup k (add_all ss (new_engine c)).0.keys ≡ some ks
        → (ks.state ≡ degraded) ↔ PublicDegraded ks.anchors
    degraded-iff-public c ss k ks at =
        let settled = (engine-IsGood c ss).keys k ks at in
        let (to, of) = derive_iff ks.anchors settled.distinct in
        (λ h. to (sym settled.derived ∙ h), λ h. settled.derived ∙ of h)

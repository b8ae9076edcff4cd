-- ===== src/Monitor/Restored.antt =====
-- An engine that is warmed from any stored baselines and samples satisfies the invariant.
use mathlib.Core.Path.{subst}
use better_nm.Prelude.{
  String, List, [], ◌∷◌, false, none, some, Assoc, lookup, Distinct, lookup-insert, str_eq, ◌≡◌,
  inl, inr, refl, sym, arith, Bool-cases,
}
use better_nm.Core.Monitor.{Sample, Baseline}
use better_nm.Monitor.Floats.{Floats}
use better_nm.Monitor.Config.{EngineConfig, with_defaults}
use better_nm.Monitor.Anchor.{AnchorState}
use better_nm.Monitor.Engine.{KeyState, Engine, key_of, new_engine, add_all}
use better_nm.Monitor.Load.{
  restored_state, load_samples, load_baselines, restore_anchor, restore_anchors, restore_key,
  restore_keys, sort_samples, load,
}
use better_nm.Monitor.Steady.{IsUsable, IsSteady, with_defaults-IsUsable, length-trim-le}
use better_nm.Monitor.Verdicts.{IsSettled, IsGood, add_all-IsGood}
use better_nm.Monitor.Loaded.{
  elem, IsRested, IsRaw, IsLoaded, key_of-IsRaw, load_samples-IsLoaded, load_baselines-IsLoaded,
}

module _ {F : Type 0} where
  module _ ⦃fl : Floats F⦄ (c : EngineConfig F) where
    restore_anchor-IsSteady :
        (key name : String) (a : AnchorState F)
        → IsUsable c
        → IsRested a
        → IsSteady c (restore_anchor c key name a).0
    unfolding restore_anchor restored_state
    restore_anchor-IsSteady key name a u rest = record {
      fits = length-trim-le c.window a.samples;
      learns = ground arith;
      known = ground arith;
      bad = λ h. omega (arith, rest.bad, u.degrade_pos);
      good = λ h. omega (arith, rest.good, u.recover_pos);
    }

    restore_anchor-IsRested :
        (key name : String) (a : AnchorState F)
        → IsRested a
        → IsRested (restore_anchor c key name a).0
    unfolding restore_anchor
    restore_anchor-IsRested key name a rest = record { bad = rest.bad; good = rest.good }

    -- Every restored anchor comes from one.
    lookup-restore_anchors :
        (key n : String) (m : Assoc (AnchorState F)) (b : AnchorState F)
        → lookup n (restore_anchors c key m) ≡ some b
        → (name : String) × (a : AnchorState F) × (lookup n m ≡ some a)
          × (b ≡ (restore_anchor c key name a).0)
    unfolding restore_anchors lookup
    lookup-restore_anchors key n [] b at = absurd (ground arith)
    lookup-restore_anchors key n ((name, a) ∷ m) b at = elim (Bool-cases (str_eq name n)) [
      | inl same ↦ (name, a, ground arith, ground arith)
      | inr other ↦
          let (name', a', at', eq) = lookup-restore_anchors key n m b (ground arith) in
          (name', a', ground arith, eq)
    ]

    absent-restore_anchors :
        (key n : String) (m : Assoc (AnchorState F))
        → lookup n m ≡ none
        → lookup n (restore_anchors c key m) ≡ none
    unfolding restore_anchors lookup
    absent-restore_anchors key n [] free = refl
    absent-restore_anchors key n ((name, a) ∷ m) free =
        ground (arith, absent-restore_anchors key n m)

    restore_anchors-Distinct :
        (key : String) (m : Assoc (AnchorState F)) → Distinct m → Distinct (restore_anchors c key m)
    unfolding restore_anchors
    restore_anchors-Distinct key [] d = tt
    restore_anchors-Distinct key ((name, a) ∷ m) d =
        (absent-restore_anchors key name m d.0, restore_anchors-Distinct key m d.1)

    restore_key-IsSettled :
        (key : String) (ks : KeyState F)
        → IsUsable c
        → IsRaw ks
        → IsSettled c (restore_key c key ks) × IsRaw (restore_key c key ks)
    unfolding restore_key
    restore_key-IsSettled key ks u raw = (
      record {
        distinct = restore_anchors-Distinct key ks.anchors raw.distinct;
        derived = refl;
        steady = λ n b at.
            let (name, a, at', eq) = lookup-restore_anchors key n ks.anchors b at in
            rw eq (restore_anchor-IsSteady key name a u (raw.rested n a at'));
      },
      record {
        distinct = restore_anchors-Distinct key ks.anchors raw.distinct;
        rested = λ n b at.
            let (name, a, at', eq) = lookup-restore_anchors key n ks.anchors b at in
            rw eq (restore_anchor-IsRested key name a (raw.rested n a at'));
      },
    )

    -- The keys that are still to be restored are listed; the others are settled.
    record IsHalfway (e : Engine F) (todo : List String) : Type 0 where
      config : e.config ≡ c
      raw : (k : String) (ks : KeyState F) → lookup k e.keys ≡ some ks → IsRaw ks
      done :
          (k : String) (ks : KeyState F)
          → lookup k e.keys ≡ some ks
          → elem k todo ≡ false
          → IsSettled c ks

    restore_keys-IsGood :
        (todo : List String) (e : Engine F)
        → IsUsable c
        → IsHalfway e todo
        → IsGood c (restore_keys todo e)
    unfolding restore_keys
    restore_keys-IsGood [] e u h = record {
      config = h.config;
      keys = λ k ks at. h.done k ks at refl;
    }
    restore_keys-IsGood (k ∷ todo) e u h =
        let new = restore_key e.config k (key_of k e) in
        let (settled, raw) =
          subst
            (λ cfg.
              IsSettled c (restore_key cfg k (key_of k e)) × IsRaw (restore_key cfg k (key_of k e)))
            (sym h.config) (restore_key-IsSettled k (key_of k e) u (key_of-IsRaw e k h.raw)) in
        restore_keys-IsGood todo _ u (record {
          config = h.config;
          raw = λ j b at. elim (Bool-cases (str_eq k j)) [
            | inl same ↦
                let eq : new ≡ b = ground (arith, lookup-insert k j new e.keys) in rw (← eq) raw
            | inr other ↦ h.raw j b (ground (arith, lookup-insert k j new e.keys))
          ];
          done = λ j b at gone. elim (Bool-cases (str_eq k j)) [
            | inl same ↦
                let eq : new ≡ b = ground (arith, lookup-insert k j new e.keys) in rw (← eq) settled
            | inr other ↦ h.done j b (ground (arith, lookup-insert k j new e.keys)) (ground arith)
          ];
        })

    new-IsLoaded : (e : Engine F) → e.config ≡ c → e.keys ≡ [] → IsLoaded c e []
    unfolding lookup
    new-IsLoaded e same empty = record {
      config = same;
      raw = λ k ks at. absurd (ground arith);
      listed = λ k ks at. absurd (ground arith);
    }

    pub load-IsGood :
        (bs : List (Baseline F)) (ss : List (Sample F)) (e : Engine F)
        → IsUsable c
        → e.config ≡ c
        → e.keys ≡ []
        → IsGood c (load bs ss e)
    unfolding load
    load-IsGood bs ss e u same empty =
        let st = load_samples (sort_samples ss) (e, []) in
        let g =
          load_baselines-IsLoaded c bs st
            (load_samples-IsLoaded c (sort_samples ss) (e, []) (new-IsLoaded e same empty)) in
        restore_keys-IsGood (load_baselines bs st).1 (load_baselines bs st).0 u (record {
          config = g.config;
          raw = g.raw;
          done = λ k ks at gone. absurd (ground (arith, g.listed k ks at));
        })

  -- A new engine that is warmed from any stored baselines and samples, in any order, and then fed
  -- any samples, satisfies the invariant: a stored verdict never outlives its samples.
  pub loaded-IsGood :
      ⦃fl : Floats F⦄ (c : EngineConfig F) (bs : List (Baseline F)) (stored fed : List (Sample F))
      → IsGood (with_defaults c) (add_all fed (load bs stored (new_engine c))).0
  unfolding new_engine
  loaded-IsGood c bs stored fed =
      let u = with_defaults-IsUsable c in
      add_all-IsGood (with_defaults c) fed (load bs stored (new_engine c)) u
        (load-IsGood (with_defaults c) bs stored (new_engine c) u refl refl)

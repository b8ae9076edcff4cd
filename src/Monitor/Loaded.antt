-- ===== src/Monitor/Loaded.antt =====
-- The first two loops of `Load`: what they leave of a new engine.
use mathlib.Core.Option
use better_nm.Prelude.{
  String, List, [], ◌∷◌, Bool, true, false, ◌||◌, some, lookup, insert, Distinct, insert-Distinct,
  lookup-insert, str_eq, ◌≡◌, inl, inr, refl, arith, eq_iff, Bool-cases, Option-cases,
}
use better_nm.Core.Monitor.{Sample, Baseline}
use better_nm.Monitor.Floats.{Floats}
use better_nm.Monitor.Config.{EngineConfig}
use better_nm.Monitor.Anchor.{AnchorState, blank_anchor, new_anchor}
use better_nm.Monitor.Engine.{KeyState, Engine, key_of}
use better_nm.Monitor.Load.{
  touch, put_anchor, load_sample, load_samples, load_baseline, load_baselines,
}

abbrev pub elem : String → List String → Bool
elem k [] = false
elem k (j ∷ js) = str_eq j k || elem k js

elem-touch : (k j : String) (js : List String) → elem j (touch k js) ≡ (str_eq k j || elem j js)
unfolding touch
elem-touch k j [] = refl
elem-touch k j (i ∷ is) = ground (arith, elem-touch k j is, eq_iff i k, eq_iff i j, eq_iff k j)

module _ {F : Type 0} where
  -- An anchor whose streaks have not begun.
  pub record IsRested (a : AnchorState F) : Type 0 where
    pub bad : a.bad_streak ≡ 0
    pub good : a.good_streak ≡ 0

  pub record IsRaw (ks : KeyState F) : Type 0 where
    pub distinct : Distinct ks.anchors
    pub rested : (n : String) (a : AnchorState F) → lookup n ks.anchors ≡ some a → IsRested a

  -- Every key of the engine is raw, and touched.
  pub record IsLoaded (c : EngineConfig F) (e : Engine F) (touched : List String) : Type 0 where
    pub config : e.config ≡ c
    pub raw : (k : String) (ks : KeyState F) → lookup k e.keys ≡ some ks → IsRaw ks
    pub listed : (k : String) (ks : KeyState F) → lookup k e.keys ≡ some ks → elem k touched ≡ true

  pub key_of-IsRaw :
      (e : Engine F) (k : String)
      → ((k : String) (ks : KeyState F) → lookup k e.keys ≡ some ks → IsRaw ks)
      → IsRaw (key_of k e)
  unfolding key_of lookup
  key_of-IsRaw e k raw = elim (Option-cases (lookup k e.keys)) [
    | inl free ↦ rw free (record { distinct = tt; rested = λ n a at. absurd (ground arith) })
    | inr (ks, at) ↦ rw at (raw k ks at)
  ]

  put_anchor-IsLoaded :
      (c : EngineConfig F) (e : Engine F) (touched : List String) (key anchor : String)
      (a : AnchorState F)
      → IsRested a
      → IsLoaded c e touched
      → IsLoaded c (put_anchor key anchor a e) (touch key touched)
  unfolding put_anchor
  put_anchor-IsLoaded c e touched key anchor a rest g =
      let ks = key_of key e in
      let raw = key_of-IsRaw e key g.raw in
      let new : KeyState F = record ks { anchors = insert anchor a ks.anchors } in
      let new_raw : IsRaw new = record {
        distinct = insert-Distinct anchor a ks.anchors raw.distinct;
        rested = λ n b at. elim (Bool-cases (str_eq anchor n)) [
          | inl same ↦
              let eq : a ≡ b = ground (arith, lookup-insert anchor n a ks.anchors) in rw (← eq) rest
          | inr other ↦ raw.rested n b (ground (arith, lookup-insert anchor n a ks.anchors))
        ];
      } in
      record {
        config = g.config;
        raw = λ k b at. elim (Bool-cases (str_eq key k)) [
          | inl same ↦
              let eq : new ≡ b = ground (arith, lookup-insert key k new e.keys) in rw (← eq) new_raw
          | inr other ↦ g.raw k b (ground (arith, lookup-insert key k new e.keys))
        ];
        listed = λ k b at. elim (Bool-cases (str_eq key k)) [
          | inl same ↦ ground (arith, elem-touch key k touched)
          | inr other ↦ ground (
            arith,
            elem-touch key k touched,
            g.listed k b (ground (arith, lookup-insert key k new e.keys)),
          )
        ];
      }

  old-IsRested :
      (c : EngineConfig F) (e : Engine F) (touched : List String) (key anchor : String)
      (fresh : AnchorState F)
      → IsRested fresh
      → IsLoaded c e touched
      → IsRested (Option.get_or (lookup anchor (key_of key e).anchors) fresh)
  old-IsRested c e touched key anchor fresh rest g =
      elim (Option-cases (lookup anchor (key_of key e).anchors)) [
        | inl free ↦ rw free rest
        | inr (a, at) ↦ rw at ((key_of-IsRaw e key g.raw).rested anchor a at)
      ]

  module _ ⦃fl : Floats F⦄ (c : EngineConfig F) where
    load_sample-IsLoaded :
        (s : Sample F) (st : Engine F × List String)
        → IsLoaded c st.0 st.1
        → let (e', touched') = load_sample s st in IsLoaded c e' touched'
    unfolding load_sample new_anchor
    load_sample-IsLoaded s (e, touched) g =
        elim (Bool-cases (str_eq s.network_key "" || str_eq s.anchor "")) [
          | inl skip ↦ rw skip g
          | inr go ↦
              let old =
                old-IsRested c e touched s.network_key s.anchor (new_anchor s.time)
                  (record { bad = refl; good = refl }) g in
              rw go (
                put_anchor-IsLoaded c e touched s.network_key s.anchor _
                  (record { bad = old.bad; good = old.good }) g)
        ]

    pub load_samples-IsLoaded :
        (ss : List (Sample F)) (st : Engine F × List String)
        → IsLoaded c st.0 st.1
        → let (e', touched') = load_samples ss st in IsLoaded c e' touched'
    unfolding load_samples
    load_samples-IsLoaded [] st g = g
    load_samples-IsLoaded (s ∷ ss) st g =
        load_samples-IsLoaded ss (load_sample s st) (load_sample-IsLoaded s st g)

    load_baseline-IsLoaded :
        (b : Baseline F) (st : Engine F × List String)
        → IsLoaded c st.0 st.1
        → let (e', touched') = load_baseline b st in IsLoaded c e' touched'
    unfolding load_baseline blank_anchor
    load_baseline-IsLoaded b (e, touched) g =
        elim (Bool-cases (str_eq b.network_key "" || str_eq b.anchor "")) [
          | inl skip ↦ rw skip g
          | inr go ↦
              let old =
                old-IsRested c e touched b.network_key b.anchor blank_anchor
                  (record { bad = refl; good = refl }) g in
              rw go (
                put_anchor-IsLoaded c e touched b.network_key b.anchor _
                  (record { bad = old.bad; good = old.good }) g)
        ]

    pub load_baselines-IsLoaded :
        (bs : List (Baseline F)) (st : Engine F × List String)
        → IsLoaded c st.0 st.1
        → let (e', touched') = load_baselines bs st in IsLoaded c e' touched'
    unfolding load_baselines
    load_baselines-IsLoaded [] st g = g
    load_baselines-IsLoaded (b ∷ bs) st g =
        load_baselines-IsLoaded bs (load_baseline b st) (load_baseline-IsLoaded b st g)

-- ===== src/Monitor/Load.antt =====
-- internal/monitor/engine.go, `Load`: the engine is warmed from stored baselines and samples.
use mathlib.Core.Option
use better_nm.Prelude.{
  ℕ, String, List, [], ◌∷◌, ◌++◌, Bool, true, false, not, ◌&&◌, ◌||◌, Assoc, lookup, insert, length,
  str_eq, ltb, ◌==◌, if◌then◌else◌,
}
use better_nm.Core.Monitor.{Sample, BaselineState, learning, ok, idle, Baseline}
use better_nm.Monitor.Floats.{Floats}
use better_nm.Monitor.Config.{EngineConfig}
use better_nm.Monitor.Anchor.{AnchorState, is_learning, trim, snapshot, blank_anchor, new_anchor}
use better_nm.Monitor.Engine.{KeyState, Engine, derive_key_state, key_of}

-- The keys of `touched`, each once.
unfoldable pub touch : String → List String → List String
touch k [] = k ∷ []
touch k (j ∷ js) = if str_eq j k then j ∷ js else j ∷ touch k js

abbrev is_unset : BaselineState → Bool
is_unset BaselineState.unset = true
is_unset _ = false

abbrev is_idle : BaselineState → Bool
is_idle idle = true
is_idle _ = false

module _ {F : Type 0} where
  -- The stable sort by time: a sample goes in front of those of its time that stood behind it.
  unfoldable pub insert_sample : Sample F → List (Sample F) → List (Sample F)
  insert_sample s [] = s ∷ []
  insert_sample s (t ∷ ts) = if ltb t.time s.time then t ∷ insert_sample s ts else s ∷ (t ∷ ts)

  unfoldable pub sort_samples : List (Sample F) → List (Sample F)
  unfolding insert_sample
  sort_samples [] = []
  sort_samples (s ∷ ss) = insert_sample s (sort_samples ss)

  unfoldable pub put_anchor : String → String → AnchorState F → Engine F → Engine F
  put_anchor key anchor a e =
      let ks = key_of key e in
      record e { keys = insert key (record ks { anchors = insert anchor a ks.anchors }) e.keys }

  unfoldable pub last_time : ℕ → List (Sample F) → ℕ
  last_time at [] = at
  last_time at (s ∷ ss) = last_time s.time ss

  -- The state that a stored anchor takes, by its number of samples.
  unfoldable pub restored_state : EngineConfig F → ℕ → BaselineState → BaselineState
  restored_state c n stored =
      let s₁ = if is_unset stored || is_idle stored then learning else stored in
      let s₂ = if ltb n c.min_samples && not (is_learning s₁) then learning else s₁ in
      if not (ltb n c.min_samples) && is_learning s₂ then ok else s₂

  module _ ⦃fl : Floats F⦄ where
    -- The body of the first loop; the second part of the state is `touched`.
    unfoldable pub load_sample : Sample F → Engine F × List String → Engine F × List String
    load_sample s (e, touched) =
        let a =
          Option.get_or (lookup s.anchor (key_of s.network_key e).anchors) (new_anchor s.time) in
        if str_eq s.network_key "" || str_eq s.anchor "" then (e, touched) else (
          put_anchor s.network_key s.anchor (record a { samples = a.samples ++ (s ∷ []) }) e,
          touch s.network_key touched,
        )

    -- The samples, oldest first.
    unfoldable pub load_samples : List (Sample F) → Engine F × List String → Engine F × List String
    load_samples [] st = st
    load_samples (s ∷ ss) st = load_samples ss (load_sample s st)

    -- The body of the second loop.
    unfoldable pub load_baseline : Baseline F → Engine F × List String → Engine F × List String
    load_baseline b (e, touched) =
        let a = Option.get_or (lookup b.anchor (key_of b.network_key e).anchors) blank_anchor in
        if str_eq b.network_key "" || str_eq b.anchor "" then (e, touched) else (
          put_anchor b.network_key b.anchor
              (record a { state = if is_unset b.state then a.state else b.state; since = b.since })
              e,
          touch b.network_key touched,
        )

    unfoldable pub load_baselines :
        List (Baseline F) → Engine F × List String → Engine F × List String
    load_baselines [] st = st
    load_baselines (b ∷ bs) st = load_baselines bs (load_baseline b st)

    -- The body of the inner loop: an anchor of a touched key, with the time of its last sample.
    unfoldable pub restore_anchor :
        EngineConfig F → String → String → AnchorState F → AnchorState F × ℕ
    restore_anchor c key name a =
        let samples = trim c.window a.samples in
        let at = last_time a.since samples in
        let a' : AnchorState F = record a {
          samples = samples;
          state = restored_state c (length samples) a.state;
          since = if a.since == 0 then at else a.since;
        } in
        (record a' { baseline = snapshot c key name a' at }, at)

    unfoldable pub restore_anchors :
        EngineConfig F → String → Assoc (AnchorState F) → Assoc (AnchorState F)
    restore_anchors c key [] = []
    restore_anchors c key ((name, a) ∷ rest) =
        (name, (restore_anchor c key name a).0) ∷ restore_anchors c key rest

    unfoldable pub latest : EngineConfig F → String → ℕ → Assoc (AnchorState F) → ℕ
    latest c key t [] = t
    latest c key t ((name, a) ∷ rest) =
        let at = (restore_anchor c key name a).1 in latest c key (if ltb t at then at else t) rest

    -- The body of the last loop.
    unfoldable pub restore_key : EngineConfig F → String → KeyState F → KeyState F
    restore_key c key ks =
        let anchors = restore_anchors c key ks.anchors in
        record {
          state = derive_key_state anchors;
          since = if ks.since == 0 then latest c key 0 ks.anchors else ks.since;
          anchors = anchors;
        }

    unfoldable pub restore_keys : List String → Engine F → Engine F
    restore_keys [] e = e
    restore_keys (k ∷ ks) e =
        restore_keys ks (record e { keys = insert k (restore_key e.config k (key_of k e)) e.keys })

    unfoldable pub load : List (Baseline F) → List (Sample F) → Engine F → Engine F
    load bs ss e =
        let (e', touched) = load_baselines bs (load_samples (sort_samples ss) (e, [])) in
        restore_keys touched e'

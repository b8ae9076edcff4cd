-- ===== src/Monitor/Engine.antt =====
-- internal/monitor/engine.go: the engine, by Network Key and by anchor. A method returns the new
-- engine; the maps hold their values in place of pointers, which nothing else shares.
use Prim.Native.Nat.{Ordering}
use Prim.Native.String
use mathlib.Core.Bool.{xor}
use mathlib.Core.Option
use better_nm.Prelude.{
  ℕ, String, List, [], ◌∷◌, ◌++◌, Bool, true, false, not, ◌&&◌, ◌||◌, Option, none, some, Assoc,
  lookup, insert, erase, map, str_eq, if◌then◌else◌,
}
use better_nm.Core.Monitor.{Sample, BaselineState, learning, ok, degraded, idle, Baseline}
use better_nm.Monitor.Floats.{Floats}
use better_nm.Monitor.Config.{EngineConfig, with_defaults}
use better_nm.Monitor.Anchor.{
  AnchorState, Reason, nothing, is_learning, is_degraded, trim, evaluate, snapshot, new_anchor,
}

abbrev pub gateway_anchor : String
gateway_anchor = "gateway"

pub record KeyState (F : Type 0) : Type 0 where
  pub state : BaselineState
  pub since : ℕ
  pub anchors : Assoc (AnchorState F)

pub record Transition (F : Type 0) : Type 0 where
  pub network_key : String
  pub from_state : BaselineState
  pub to_state : BaselineState
  pub at : ℕ
  pub anchor : String
  pub reason : Reason
  pub baseline : Option (Baseline F)  -- none is the zero value

pub record Engine (F : Type 0) : Type 0 where
  pub config : EngineConfig F
  pub keys : Assoc (KeyState F)

abbrev pub same_state : BaselineState → BaselineState → Bool
same_state learning learning = true
same_state ok ok = true
same_state degraded degraded = true
same_state idle idle = true
same_state BaselineState.unset BaselineState.unset = true
same_state _ _ = false

abbrev pub text_less : String → String → Bool
text_less s t = elim (String.compare s t) [ Ordering.lt ↦ true | _ ↦ false ]

module _ {F : Type 0} where
  -- The loop of `deriveKeyState`.
  unfoldable pub derive_from : Bool → Assoc (AnchorState F) → BaselineState
  derive_from all_learning [] = if all_learning then learning else ok
  derive_from all_learning ((name, a) ∷ rest) =
      let next = derive_from (all_learning && is_learning a.state) rest in
      if not (str_eq name gateway_anchor) && is_degraded a.state then degraded else next

  unfoldable pub derive_key_state : Assoc (AnchorState F) → BaselineState
  unfolding derive_from
  derive_key_state [] = idle
  derive_key_state (a ∷ rest) = derive_from true (a ∷ rest)

  -- `e.key(k)`, without entering it into the map
  unfoldable pub key_of : String → Engine F → KeyState F
  key_of k e = Option.get_or (lookup k e.keys) (record { state = idle; since = 0; anchors = [] })

  unfoldable pub settle :
      String → KeyState F → String → AnchorState F → ℕ → KeyState F × List (Transition F)
  settle key ks anchor a at =
      let next = derive_key_state ks.anchors in
      if same_state next ks.state
      then (ks, [])
      else let decided = is_degraded next || is_degraded ks.state in
        (
          record ks { state = next; since = at },
          record {
            network_key = key;
            from_state = ks.state;
            to_state = next;
            at = at;
            anchor = if decided then anchor else "";
            reason = if is_degraded next then a.last_reason else nothing;
            baseline = if decided then some a.baseline else none;
          }
              ∷ [],
        )

  unfoldable pub state_of : String → Engine F → BaselineState × ℕ
  state_of k e = elim (lookup k e.keys) [ none ↦ (idle, 0) | some ks ↦ (ks.state, ks.since) ]

  unfoldable pub reset : String → Engine F → Engine F
  reset k e = record e { keys = erase k e.keys }

  -- Gateway first, then by name.
  unfoldable pub baseline_less : Baseline F → Baseline F → Bool
  baseline_less a b =
      if xor (str_eq a.anchor gateway_anchor) (str_eq b.anchor gateway_anchor)
      then str_eq a.anchor gateway_anchor
      else text_less a.anchor b.anchor

  unfoldable pub insert_baseline : Baseline F → List (Baseline F) → List (Baseline F)
  insert_baseline b [] = b ∷ []
  insert_baseline b (c ∷ cs) = if baseline_less c b then c ∷ insert_baseline b cs else b ∷ (c ∷ cs)

  unfoldable sort_baselines : List (Baseline F) → List (Baseline F)
  unfolding insert_baseline
  sort_baselines [] = []
  sort_baselines (b ∷ bs) = insert_baseline b (sort_baselines bs)

  unfoldable pub baselines : String → Engine F → List (Baseline F)
  unfolding sort_baselines
  baselines k e = elim (lookup k e.keys) [
    | none ↦ []
    | some ks ↦ sort_baselines (map (λ a. a.1.baseline) ks.anchors)
  ]

  module _ ⦃fl : Floats F⦄ where
    unfoldable pub new_engine : EngineConfig F → Engine F
    new_engine c = record { config = with_defaults c; keys = [] }

    -- The anchor after one more sample.
    unfoldable pub feed : EngineConfig F → Sample F → Option (AnchorState F) → AnchorState F
    feed c s old =
        let a = Option.get_or old (new_anchor s.time) in
        let a' = evaluate c s.time (record a { samples = trim c.window (a.samples ++ (s ∷ [])) }) in
        record a' { baseline = snapshot c s.network_key s.anchor a' s.time }

    unfoldable pub add : Sample F → Engine F → Engine F × List (Transition F)
    add s e =
        if str_eq s.network_key "" || str_eq s.anchor ""
        then (e, [])
        else let ks = key_of s.network_key e in
          let a = feed e.config s (lookup s.anchor ks.anchors) in
          let (ks', out) =
            settle s.network_key (record ks { anchors = insert s.anchor a ks.anchors }) s.anchor a
              s.time in
          (record e { keys = insert s.network_key ks' e.keys }, out)

    unfoldable pub add_all : List (Sample F) → Engine F → Engine F × List (Transition F)
    add_all [] e = (e, [])
    add_all (s ∷ ss) e =
        let (e', out) = add s e in let (e'', outs) = add_all ss e' in (e'', out ++ outs)

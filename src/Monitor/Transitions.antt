-- ===== src/Monitor/Transitions.antt =====
-- The transitions that `Add` reports are the changes of the keys' states, all of them, in order.
use mathlib.Core.Path.{subst, fun_ext}
use better_nm.Prelude.{
  ℕ, String, List, [], ◌∷◌, ◌++◌, true, ◌||◌, lookup, insert, lookup-insert, str_eq, if◌then◌else◌,
  ◌≡◌, ◌≢◌, inl, inr, refl, sym, arith, eq_iff, Bool-cases,
}
use better_nm.Core.Monitor.{Sample, BaselineState}
use better_nm.Monitor.Floats.{Floats}
use better_nm.Monitor.Anchor.{AnchorState}
use better_nm.Monitor.Engine.{
  KeyState, Transition, Engine, same_state, derive_key_state, key_of, state_of, settle, feed, add,
  add_all,
}

abbrev pub States : Type 0
States = String → BaselineState

same_state_refl : (s t : BaselineState) → s ≡ t → same_state s t ≡ true
same_state_refl s t h = ground arith

module _ {F : Type 0} where
  abbrev pub states : Engine F → States
  states e k = (state_of k e).0

  -- The transitions lead from the first states to the last: each one starts where its key stands,
  -- and changes it.
  abbrev pub Leads : States → List (Transition F) → States → Type 0
  Leads from [] to = (k : String) → from k ≡ to k
  Leads from (t ∷ ts) to =
      (t.from_state ≡ from t.network_key)
      × (t.from_state ≢ t.to_state)
      × Leads (λ k. if str_eq t.network_key k then t.to_state else from k) ts to

  Leads-append :
      (from mid to : States) (ts us : List (Transition F))
      → Leads from ts mid
      → Leads mid us to
      → Leads from (ts ++ us) to
  Leads-append from mid to [] us l m = subst (λ (s : States). Leads s us to) (sym (fun_ext l)) m
  Leads-append from mid to (t ∷ ts) us (a, b, l) m = (
    a,
    b,
    Leads-append (λ k. if str_eq t.network_key k then t.to_state else from k) mid to ts us l m,
  )

  states-insert :
      (key k : String) (e : Engine F) (ks : KeyState F)
      → states (record e { keys = insert key ks e.keys }) k
        ≡ (if str_eq key k then ks.state else states e k)
  unfolding state_of
  states-insert key k e ks = ground (arith, lookup-insert key k ks e.keys)

  states-key_of : (key : String) (e : Engine F) → states e key ≡ (key_of key e).state
  unfolding state_of key_of
  states-key_of key e = ground arith

  settle-Leads :
      (e : Engine F) (key anchor : String) (ks : KeyState F) (a : AnchorState F) (at : ℕ)
      → ks.state ≡ states e key
      → let (ks', out) = settle key ks anchor a at in
        Leads (states e) out (states (record e { keys = insert key ks' e.keys }))
  unfolding settle
  settle-Leads e key anchor ks a at same =
      elim (Bool-cases (same_state (derive_key_state ks.anchors) ks.state)) [
        | inl stays ↦ rw stays λ k. ground (arith, states-insert key k e ks, same, eq_iff key k)
        | inr moves ↦ rw moves (
          same,
          λ eq. ground (arith, same_state_refl (derive_key_state ks.anchors) ks.state),
          λ k. ground (
            arith,
            states-insert key k e (record ks { state = derive_key_state ks.anchors; since = at }),
          ),
        )
      ]

  module _ ⦃fl : Floats F⦄ where
    add-Leads :
        (s : Sample F) (e : Engine F) → let (e', out) = add s e in Leads (states e) out (states e')
    unfolding add
    add-Leads s e = elim (Bool-cases (str_eq s.network_key "" || str_eq s.anchor "")) [
      | inl skip ↦ rw skip λ k. refl
      | inr go ↦
          let ks = key_of s.network_key e in
          let a = feed e.config s (lookup s.anchor ks.anchors) in
          rw go (
            settle-Leads e s.network_key s.anchor
              (record ks { anchors = insert s.anchor a ks.anchors }) a s.time
              (sym (states-key_of s.network_key e)))
    ]

    -- From any state of the engine, over any samples: the transitions that `Add` returns, taken in
    -- order, lead from the states of the keys before to those after. Each starts at the state that
    -- its key then has, and none leads from a state to itself.
    pub add_all-Leads :
        (ss : List (Sample F)) (e : Engine F)
        → let (e', out) = add_all ss e in Leads (states e) out (states e')
    unfolding add_all
    add_all-Leads [] e = λ k. refl
    add_all-Leads (s ∷ ss) e =
        Leads-append (states e) (states (add s e).0) _ (add s e).1 (add_all ss (add s e).0).1
          (add-Leads s e) (add_all-Leads ss (add s e).0)

-- ===== src/Nm/Agent/Waits.antt =====
-- What becomes of the outcome of a request, and of the call of GetSecrets that waits for it.
use better_nm.Prelude.{
  ℕ, String, Bool, true, false, Option, none, some, lookup, lookup-insert, any, str_eq, ◌≡◌, refl,
  ◌∙◌, arith, eq_iff, Bool-cases, Option-cases, ◌⊎◌, inl, inr,
}
use better_nm.Core.Secrets.{SecretOutcome, cancelled}
use better_nm.Nm.Agent.{Pending, Agent, no_answer, settle, resolve, resolve_locked}
use better_nm.Nm.Agent.World.{World, Step, ask, expires, Reach, here, next, IsStart}
use better_nm.Nm.Agent.Lives.{Move, stays, begins, ends, superseded, dropped, Inv}
use better_nm.Nm.Agent.Steps.{asks}
use better_nm.Nm.Agent.Sound.{Step-cases}
use better_nm.Nm.Agent.Once.{start-Inv, Reach-Inv}

-- An ID that was drawn stays drawn, and is not drawn again.
drawn_stays :
    {u v : World} (st : Step u v) (id : String)
    → any (str_eq id) u.issued ≡ true
    → (any (str_eq id) v.issued ≡ true) × (asks st id ≡ false)
drawn_stays (ask j p unused new) id drawn = ground (arith, eq_iff j id, eq_iff id j)
drawn_stays (Step.answers j ans) id drawn = (drawn, refl)
drawn_stays (Step.cancels j) id drawn = (drawn, refl)
drawn_stays (Step.cancels_by_nm c s) id drawn = (drawn, refl)
drawn_stays (expires j) id drawn = (drawn, refl)
drawn_stays (Step.closes j) id drawn = (drawn, refl)
drawn_stays Step.cancels_all id drawn = (drawn, refl)
drawn_stays (Step.forgets j p e d) id drawn = (drawn, refl)

-- A resolved request that is not asked for again stays or goes.
verdict_move :
    (p : Pending) (asked : Bool) (old new : Option Pending) (more : ℕ)
    → p.resolved ≡ true
    → asked ≡ false
    → Move asked old new more
    → (old ≡ some p) ⊎ (old ≡ none)
    → (new ≡ some p) ⊎ (new ≡ none)
verdict_move p asked old new more done idle (stays e n) (inl at) = inl (e ∙ at)
verdict_move p asked old new more done idle (stays e n) (inr at) = inr (e ∙ at)
verdict_move p asked old new more done idle (begins q yes_asked e f g n) at = cc
verdict_move p asked old new more done idle (ends q r e f g h n) (inl at) = absurd (ground arith)
verdict_move p asked old new more done idle (ends q r e f g h n) (inr at) = cc
verdict_move p asked old new more done idle (superseded q e f g n) (inl at) = absurd (ground arith)
verdict_move p asked old new more done idle (superseded q e f g n) (inr at) = cc
verdict_move p asked old new more done idle (dropped q e f g n) at = inr g

module _ {u : World} (inv : Inv u) (id : String) (p : Pending)
    (at : lookup id u.agent.pending ≡ some p) where
  stays_drawn : {v : World} → Reach u v → any (str_eq id) v.issued ≡ true
  stays_drawn here = inv.drawn id p at
  stays_drawn (next r st) = (drawn_stays st id (stays_drawn r)).0

  pub verdict_from :
      {v : World}
      → p.resolved ≡ true
      → Reach u v
      → (lookup id v.agent.pending ≡ some p) ⊎ (lookup id v.agent.pending ≡ none)
  verdict_from done here = inl at
  verdict_from done (next r st) =
      let g = (Step-cases (Reach-Inv inv r) st).1 id in
      verdict_move p (asks st id) _ _ g.more done (drawn_stays st id (stays_drawn r)).1 g.moves
        (verdict_from done r)

-- The outcome of a request stands: once a request is resolved, whatever happens afterwards it stays
-- as it is, answer and outcome included, until it is dropped, and it does not come back.
verdict_stands :
    {w u v : World} (id : String) (p : Pending)
    → IsStart w
    → Reach w u
    → lookup id u.agent.pending ≡ some p
    → p.resolved ≡ true
    → Reach u v
    → (lookup id v.agent.pending ≡ some p) ⊎ (lookup id v.agent.pending ≡ none)
verdict_stands id p s r at done r' = verdict_from (Reach-Inv (start-Inv s) r) id p at done r'

resolve_lem :
    (id : String) (a : Agent) (o : SecretOutcome)
    → (lookup id a.pending ≡ none)
      ⊎ ((q : Pending) × (lookup id (resolve id o no_answer false a).0.pending ≡ some q)
          × (q.resolved ≡ true)
          × ((lookup id a.pending ≡ some q) ⊎ (q.outcome ≡ o)))
unfolding resolve resolve_locked settle
resolve_lem id a o = elim (Option-cases (lookup id a.pending)) [
  | inl free ↦ inl free
  | inr (p, at) ↦ elim (Bool-cases p.resolved) [
    | inl old ↦ inr (p, ground (arith, lookup-insert id id p a.pending, eq_iff id id), old, inl at)
    | inr open_yet ↦
        let q = settle o no_answer false p in
        inr (q, ground (arith, lookup-insert id id q a.pending, eq_iff id id), refl, inr refl)
  ]
]

-- A request that is in the store is never gone unresolved.
gone_move :
    (asked : Bool) (old new : Option Pending) (more : ℕ)
    → asked ≡ false
    → Move asked old new more
    → ((p : Pending) × (old ≡ some p))
    → ((p : Pending) × (new ≡ some p)) ⊎ ((p : Pending) × (old ≡ some p) × (p.resolved ≡ true))
gone_move asked old new more idle (stays e n) (p, at) = inl (p, e ∙ at)
gone_move asked old new more idle (begins q yes_asked e f g n) at = cc
gone_move asked old new more idle (ends q r e f g h n) at = inl (r, g)
gone_move asked old new more idle (superseded q e f g n) at =
    inl (settle cancelled no_answer true q, g)
gone_move asked old new more idle (dropped q e f g n) at = inr (q, e, f)

-- The request is still there, or it was resolved on the way.
abbrev pub ResolvedBefore : World → World → String → Type 0
ResolvedBefore u v id =
    (x : World) × Reach u x
    × Reach x v
    × ((q : Pending) × (lookup id x.agent.pending ≡ some q) × (q.resolved ≡ true))

module _ {u : World} (inv : Inv u) (id : String) (p : Pending)
    (at : lookup id u.agent.pending ≡ some p) where
  there_or_resolved :
      {v : World}
      → Reach u v
      → ((q : Pending) × (lookup id v.agent.pending ≡ some q)) ⊎ ResolvedBefore u v id
  there_or_resolved here = inl (p, at)
  there_or_resolved (next {u = x} r st) = elim (there_or_resolved r) [
    | inr (y, before, later, found) ↦ inr (y, before, next later st, found)
    | inl known ↦
        let g = (Step-cases (Reach-Inv inv r) st).1 id in
        elim (gone_move (asks st id) _ _ g.more (drawn_stays st id (stays_drawn inv id p at r)).1
          g.moves known) [
            | inl still ↦ inl still
            | inr (q, found, done) ↦ inr (x, r, next here st, (q, found, done))
          ]
  ]

-- A call of GetSecrets does not wait for ever: whatever happens while its request is open, its timer
-- leaves the request resolved, with the outcome it had or as timed out; a request that is no longer
-- stored then was resolved before, so that the call has returned.
pub wait_ends :
    {w u v : World} (id : String) (p : Pending)
    → IsStart w
    → Reach w u
    → lookup id u.agent.pending ≡ some p
    → Reach u v
    → let x = (resolve id SecretOutcome.timeout no_answer false v.agent).0 in
      ((q : Pending) × (lookup id x.pending ≡ some q)
        × (q.resolved ≡ true)
        × ((lookup id v.agent.pending ≡ some q) ⊎ (q.outcome ≡ SecretOutcome.timeout)))
      ⊎ ResolvedBefore u v id
wait_ends {v} id p s r at r' = elim (there_or_resolved (Reach-Inv (start-Inv s) r) id p at r') [
  | inr before ↦ inr before
  | inl (q, still) ↦ elim (resolve_lem id v.agent SecretOutcome.timeout) [
    | inl free ↦ absurd (ground arith)
    | inr ended_now ↦ inl ended_now
  ]
]

-- ===== src/Nm/Agent/Lives.antt =====
-- The life of one request under the steps of the agent.
use better_nm.Prelude.{
  ℕ, String, List, [], ◌∷◌, Bool, true, false, ◌==◌, Option, none, some, lookup, insert, Distinct,
  insert-Distinct, lookup-insert, any, str_eq, ◌≡◌, refl, arith, eq_iff, Bool-cases, Option-cases,
  ◌⊎◌, inl, inr,
}
use better_nm.Core.Secrets.{SecretAnswer, SecretOutcome, cancelled}
use better_nm.Nm.Agent.{Pending, Agent, Notice, ended, no_answer, settle, resolve_locked, resolve}
use better_nm.Nm.Agent.Broker.{answer, cancel, filled}
use better_nm.Nm.Agent.World.{World, effect}
use better_nm.Nm.Agent.Requests.{times, Keyed, lookup-Keyed, insert-Keyed}

-- What one step makes of a request: `asked` says whether it is the step that makes it, `more` how
-- often it was announced as ended.
pub data Move (asked : Bool) (old new : Option Pending) (more : ℕ) : Type 0 where
  stays : new ≡ old → more ≡ 0 → Move asked old new more
  begins :
      (p : Pending)
      → asked ≡ true
      → old ≡ none
      → new ≡ some p
      → p.resolved ≡ false
      → more ≡ 0
      → Move asked old new more
  ends :
      (p q : Pending)
      → old ≡ some p
      → p.resolved ≡ false
      → new ≡ some q
      → q.resolved ≡ true
      → more ≡ 1
      → Move asked old new more
  superseded :
      (p : Pending)
      → old ≡ some p
      → p.resolved ≡ false
      → new ≡ some (settle cancelled no_answer true p)
      → more ≡ 0
      → Move asked old new more
  dropped :
      (p : Pending)
      → old ≡ some p
      → p.resolved ≡ true
      → new ≡ none
      → more ≡ 0
      → Move asked old new more

-- An effect on the store, seen from one request.
abbrev pub Moves : World → Agent × List Notice → Bool → String → Type 0
Moves w (a, out) asked id =
    Move asked (lookup id w.agent.pending) (lookup id a.pending) (times id out)

pub record Inv (w : World) : Type 0 where
  pub listening : w.agent.on_resolved ≡ true
  pub distinct : Distinct w.agent.pending
  pub keyed : Keyed w.agent.pending
  pub drawn :
      (id : String) (p : Pending)
      → lookup id w.agent.pending ≡ some p
      → any (str_eq id) w.issued ≡ true
  pub silent : (id : String) → any (str_eq id) w.issued ≡ false → times id w.log ≡ 0

-- What an operation keeps beside the requests.
pub record Kept (w : World) (a : Agent) : Type 0 where
  pub listening : a.on_resolved ≡ true
  pub distinct : Distinct a.pending
  pub keyed : Keyed a.pending

-- A request that is open is resolved and announced.
settled-Moves :
    (w : World) (id : String) (p : Pending) (outcome : SecretOutcome) (ans : SecretAnswer)
    (by_nm : Bool) (a : Agent) (j : String)
    → Inv w
    → lookup id w.agent.pending ≡ some p
    → p.resolved ≡ false
    → a ≡ record w.agent { pending = insert id (settle outcome ans by_nm p) w.agent.pending }
    → Moves w (a, ended p.req.id outcome ∷ []) false j × Kept w a
unfolding times settle
settled-Moves w id p outcome ans by_nm a j inv at fresh e =
    let name = lookup-Keyed w.agent.pending id p inv.keyed at in
    let q = settle outcome ans by_nm p in
    rw e (
      elim (Bool-cases (str_eq id j)) [
        | inl same ↦
            ends p q (ground (arith, eq_iff id j)) fresh
              (ground (arith, lookup-insert id j q w.agent.pending)) refl
              (ground (arith, eq_iff id j))
        | inr differs ↦ stays (ground (arith, lookup-insert id j q w.agent.pending)) (ground arith)
      ],
      record {
        listening = inv.listening;
        distinct = insert-Distinct id q w.agent.pending inv.distinct;
        keyed = insert-Keyed w.agent.pending id q name inv.keyed;
      },
    )

unchanged : (w : World) (j : String) → Inv w → Moves w (w.agent, []) false j × Kept w w.agent
unfolding times
unchanged w j inv = (
  stays refl refl,
  record { listening = inv.listening; distinct = inv.distinct; keyed = inv.keyed },
)

-- A request that was resolved before is written back.
written_back :
    (w : World) (id : String) (p : Pending) (j : String)
    → Inv w
    → lookup id w.agent.pending ≡ some p
    → let a = record w.agent { pending = insert id p w.agent.pending } in
      Moves w (a, []) false j × Kept w a
unfolding times
written_back w id p j inv at = (
  stays (ground (arith, lookup-insert id j p w.agent.pending, eq_iff id j)) refl,
  record {
    listening = inv.listening;
    distinct = insert-Distinct id p w.agent.pending inv.distinct;
    keyed =
        insert-Keyed w.agent.pending id p (lookup-Keyed w.agent.pending id p inv.keyed at)
          inv.keyed;
  },
)

-- The three effects that an operation on one request can have.
abbrev Settles : World → String → SecretOutcome → SecretAnswer → Bool → Agent × List Notice → Type 0
Settles w id outcome ans by_nm r =
    (r ≡ (w.agent, []))
    ⊎ ((p : Pending) × (lookup id w.agent.pending ≡ some p)
        × (r ≡ (record w.agent { pending = insert id p w.agent.pending }, [])))
    ⊎ ((p : Pending) × (lookup id w.agent.pending ≡ some p)
        × (p.resolved ≡ false)
        × (r ≡ (
          record w.agent { pending = insert id (settle outcome ans by_nm p) w.agent.pending },
          ended p.req.id outcome ∷ [],
        )))

pub Settles-Moves :
    (w : World) (id : String) (outcome : SecretOutcome) (ans : SecretAnswer) (by_nm : Bool)
    (r : Agent × List Notice) (j : String)
    → Inv w
    → Settles w id outcome ans by_nm r
    → Moves w r false j × Kept w r.0
Settles-Moves w id outcome ans by_nm r j inv (inl e) = rw e (unchanged w j inv)
Settles-Moves w id outcome ans by_nm r j inv (inr (inl (p, at, e))) =
    rw e (written_back w id p j inv at)
Settles-Moves w id outcome ans by_nm r j inv (inr (inr (p, at, open_yet, e))) =
    rw e (settled-Moves w id p outcome ans by_nm _ j inv at open_yet refl)

pub resolve-Settles :
    (w : World) (id : String) (outcome : SecretOutcome) (ans : SecretAnswer) (by_nm : Bool)
    → Inv w
    → Settles w id outcome ans by_nm (resolve id outcome ans by_nm w.agent)
unfolding resolve resolve_locked
resolve-Settles w id outcome ans by_nm inv = elim (Option-cases (lookup id w.agent.pending)) [
  | inl e ↦ inl (ground arith)
  | inr (p, e) ↦ elim (Bool-cases p.resolved) [
    | inl old ↦ inr (inl (p, e, ground arith))
    | inr open_yet ↦ inr (inr (p, e, open_yet, ground (arith, inv.listening)))
  ]
]

pub answer-Settles :
    (w : World) (id : String) (ans : SecretAnswer)
    → Inv w
    → Settles w id SecretOutcome.answered ans false (effect (answer id ans w.agent))
unfolding answer resolve_locked
answer-Settles w id ans inv = elim (Option-cases (lookup id w.agent.pending)) [
  | inl e ↦ inl (ground arith)
  | inr (p, e) ↦ elim (Bool-cases p.resolved) [
    | inl old ↦ inl (ground arith)
    | inr open_yet ↦ elim (Bool-cases (filled p.req.fields ans == 0)) [
      | inl empty ↦ inl (ground arith)
      | inr some_given ↦ inr (inr (p, e, open_yet, ground (arith, inv.listening)))
    ]
  ]
]

pub cancel-Settles :
    (w : World) (id : String)
    → Inv w
    → Settles w id cancelled no_answer false (effect (cancel id w.agent))
unfolding cancel resolve_locked
cancel-Settles w id inv = elim (Option-cases (lookup id w.agent.pending)) [
  | inl e ↦ inl (ground arith)
  | inr (p, e) ↦ elim (Bool-cases p.resolved) [
    | inl old ↦ inl (ground arith)
    | inr open_yet ↦ inr (inr (p, e, open_yet, ground (arith, inv.listening)))
  ]
]

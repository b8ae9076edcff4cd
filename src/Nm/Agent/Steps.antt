-- ===== src/Nm/Agent/Steps.antt =====
-- Every step of the agent moves each request along its life, and keeps the store sound.
use mathlib.Core.Path.{subst}
use better_nm.Prelude.{
  ℕ, ◌+◌, String, List, [], Bool, true, false, not, ◌&&◌, Option, none, some, lookup,
  insert-Distinct, erase-Distinct, lookup-insert, lookup-erase, any, str_eq, ◌≡◌, refl, arith,
  eq_iff, Bool-cases, Option-cases, inl, inr,
}
use better_nm.Core.Secrets.{cancelled}
use better_nm.Nm.Agent.{Pending, Agent, Notice, no_answer, is_for, settle, sweep, enlist, forget}
use better_nm.Nm.Agent.World.{World, IsNew, after, Step, ask}
use better_nm.Nm.Agent.Requests.{
  times, times-append, insert-Keyed, erase-Keyed, swept, hit, swept_option, lookup-sweep,
  sweep-Distinct, sweep-Keyed, times-sweep,
}
use better_nm.Nm.Agent.Lives.{Move, stays, begins, ends, superseded, dropped, Moves, Inv, Kept}

-- A sweep ends the open requests that it picks.
sweep-Move :
    (which : Pending → Bool) (by_nm : Bool) (old : Option Pending)
    → Move false old (swept_option which by_nm old) (hit which old)
unfolding swept settle
sweep-Move which by_nm none = stays refl refl
sweep-Move which by_nm (some p) = elim (Bool-cases (which p && not p.resolved)) [
  | inl picked ↦
      ends p (settle cancelled no_answer by_nm p) refl (ground arith) (ground arith) refl
        (ground arith)
  | inr left ↦ stays (ground arith) (ground arith)
]

pub sweep-Moves :
    (w : World) (which : Pending → Bool) (by_nm : Bool) (j : String)
    → Inv w
    → let (m, out) = sweep which by_nm w.agent.on_resolved w.agent.pending in
      Moves w (record w.agent { pending = m }, out) false j
      × Kept w (record w.agent { pending = m })
sweep-Moves w which by_nm j inv = (
  rw inv.listening (
      rw (lookup-sweep which by_nm w.agent.pending true j) (
        rw (times-sweep which by_nm w.agent.pending j inv.distinct inv.keyed)
          (sweep-Move which by_nm (lookup j w.agent.pending)))),
  record {
    listening = inv.listening;
    distinct = sweep-Distinct which by_nm w.agent.pending w.agent.on_resolved inv.distinct;
    keyed = sweep-Keyed which by_nm w.agent.pending w.agent.on_resolved inv.keyed;
  },
)

-- A new request supersedes those for its profile and setting.
supersede-Move :
    (asked : Bool) (which : Pending → Bool) (old : Option Pending)
    → Move asked old (swept_option which true old) 0
unfolding swept settle
supersede-Move asked which none = stays refl refl
supersede-Move asked which (some p) = elim (Bool-cases (which p && not p.resolved)) [
  | inl picked ↦ superseded p refl (ground arith) (ground arith) refl
  | inr left ↦ stays (ground arith) refl
]

pub enlist-Moves :
    (w : World) (id : String) (p : Pending) (j : String)
    → any (str_eq id) w.issued ≡ false
    → IsNew id p
    → Inv w
    → Moves w (enlist id p w.agent) (str_eq id j) j × Kept w (enlist id p w.agent).0
unfolding enlist times
enlist-Moves w id p j unused new inv =
    let which = is_for p.conn_path p.setting in
    let swept_all = (sweep which true w.agent.on_resolved w.agent.pending).0 in
    let at = lookup-sweep which true w.agent.pending w.agent.on_resolved j in
    (
      elim (Bool-cases (str_eq id j)) [
        | inl same ↦
            begins p same
              (elim (Option-cases (lookup j w.agent.pending)) [
                | inl free ↦ free
                | inr (q, taken) ↦ absurd (ground (arith, eq_iff id j, inv.drawn j q taken))
              ])
              (ground (arith, lookup-insert id j p swept_all)) new.fresh refl
        | inr differs ↦
            subst (λ new_one. Move (str_eq id j) (lookup j w.agent.pending) new_one 0)
              (ground (arith, lookup-insert id j p swept_all, at))
              (supersede-Move (str_eq id j) which (lookup j w.agent.pending))
      ],
      record {
        listening = inv.listening;
        distinct =
            insert-Distinct id p swept_all
              (sweep-Distinct which true w.agent.pending w.agent.on_resolved inv.distinct);
        keyed =
            insert-Keyed swept_all id p new.named
              (sweep-Keyed which true w.agent.pending w.agent.on_resolved inv.keyed);
      },
    )

pub forget-Moves :
    (w : World) (id : String) (p : Pending) (j : String)
    → lookup id w.agent.pending ≡ some p
    → p.resolved ≡ true
    → Inv w
    → Moves w (forget id w.agent, []) false j × Kept w (forget id w.agent)
unfolding forget times
forget-Moves w id p j at done inv = (
  elim (Bool-cases (str_eq id j)) [
    | inl same ↦
        dropped p (ground (arith, eq_iff id j)) done
          (ground (arith, lookup-erase id j w.agent.pending)) refl
    | inr differs ↦ stays (ground (arith, lookup-erase id j w.agent.pending)) refl
  ],
  record {
    listening = inv.listening;
    distinct = erase-Distinct id w.agent.pending inv.distinct;
    keyed = erase-Keyed w.agent.pending id inv.keyed;
  },
)

-- The request that a step makes.
abbrev pub asks : {w v : World} → Step w v → String → Bool
asks (ask id p unused new) j = str_eq id j
asks _ j = false

-- One step, seen from one request.
pub record Progress (w v : World) (asked : Bool) (j : String) : Type 0 where
  pub more : ℕ
  pub moves : Move asked (lookup j w.agent.pending) (lookup j v.agent.pending) more
  pub counted : times j v.log ≡ times j w.log + more

-- What an operation does to every request, as a step.
pub record Sound (w : World) (r : Agent × List Notice) : Type 0 where
  pub moves : (j : String) → Moves w r false j
  pub kept : Kept w r.0

pub after-Progress :
    (w : World) (r : Agent × List Notice) (asked : Bool) (j : String)
    → Moves w r asked j
    → Progress w (after w r) asked j
after-Progress w r asked j m = record {
  more = times j r.1;
  moves = m;
  counted = times-append j w.log r.1;
}

pub known_before :
    (j : String) (p : Pending) (old new : Option Pending) (more : ℕ)
    → Move false old new more
    → new ≡ some p
    → (q : Pending) × (old ≡ some q)
known_before j p old new more (stays e n) at = (p, ground arith)
known_before j p old new more (begins q asked e f g n) at = cc
known_before j p old new more (ends q r e f g h n) at = (q, e)
known_before j p old new more (superseded q e f g n) at = (q, e)
known_before j p old new more (dropped q e f g n) at = (q, e)

silent_before :
    (old new : Option Pending) (more : ℕ) → Move false old new more → old ≡ none → more ≡ 0
silent_before old new more (stays e n) at = n
silent_before old new more (begins q asked e f g n) at = n
silent_before old new more (ends q r e f g h n) at = cc
silent_before old new more (superseded q e f g n) at = n
silent_before old new more (dropped q e f g n) at = n

undrawn :
    (w : World) (j : String)
    → Inv w
    → any (str_eq j) w.issued ≡ false
    → lookup j w.agent.pending ≡ none
undrawn w j inv unused = elim (Option-cases (lookup j w.agent.pending)) [
  | inl free ↦ free
  | inr (q, taken) ↦ absurd (ground (arith, inv.drawn j q taken))
]

pub after-Inv : (w : World) (r : Agent × List Notice) → Inv w → Sound w r → Inv (after w r)
after-Inv w r inv sound = record {
  listening = sound.kept.listening;
  distinct = sound.kept.distinct;
  keyed = sound.kept.keyed;
  drawn = λ id p at.
      let (q, before) = known_before id p _ _ _ (sound.moves id) at in inv.drawn id q before;
  silent = λ id unused. omega (
    arith,
    times-append id w.log r.1,
    inv.silent id unused,
    silent_before _ _ _ (sound.moves id) (undrawn w id inv unused),
  );
}

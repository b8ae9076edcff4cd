-- ===== src/Nm/Agent/Unique.antt =====
-- At most one request is open for a profile and a setting; what a newer request supersedes.
use better_nm.Prelude.{
  ℕ, String, ◌∷◌, Bool, true, false, Option, some, lookup, lookup-insert, any, str_eq, ◌≡◌, refl,
  sym, ◌∙◌, arith, eq_iff, Bool-cases, Option-cases, ◌⊎◌, inl, inr,
}
use better_nm.Nm.Agent.{Pending, settle, is_for, sweep, enlist}
use better_nm.Nm.Agent.World.{World, IsNew, after, Step, ask, Reach, here, next, IsStart}
use better_nm.Nm.Agent.Requests.{swept, lookup-sweep}
use better_nm.Nm.Agent.Lives.{Move, stays, begins, ends, superseded, dropped, Inv}
use better_nm.Nm.Agent.Steps.{asks}
use better_nm.Nm.Agent.Sound.{Step-cases}
use better_nm.Nm.Agent.Once.{start-Inv, Reach-Inv}

-- A request of the world that is open.
abbrev pub Open : World → String → Pending → Type 0
Open w id p = (lookup id w.agent.pending ≡ some p) × (p.resolved ≡ false)

abbrev OneOpen : World → Type 0
OneOpen w =
    (i j : String) (p q : Pending)
    → Open w i p
    → Open w j q
    → p.conn_path ≡ q.conn_path
    → p.setting ≡ q.setting
    → i ≡ j

-- An open request is new or was open before.
open_move :
    (asked : Bool) (old new : Option Pending) (more : ℕ) (p : Pending)
    → Move asked old new more
    → new ≡ some p
    → p.resolved ≡ false
    → (asked ≡ true) ⊎ (old ≡ some p)
unfolding settle
open_move asked old new more p (stays e n) at fresh = inr (sym e ∙ at)
open_move asked old new more p (begins q yes_asked e f g n) at fresh = inl yes_asked
open_move asked old new more p (ends q r e f g h n) at fresh = absurd (ground arith)
open_move asked old new more p (superseded q e f g n) at fresh = absurd (ground arith)
open_move asked old new more p (dropped q e f g n) at fresh = cc

-- Beside a new request no other is open for its profile and setting.
alone :
    (w : World) (id j : String) (p q : Pending)
    → str_eq id j ≡ false
    → lookup j (enlist id p w.agent).0.pending ≡ some q
    → q.resolved ≡ false
    → is_for p.conn_path p.setting q ≡ false
unfolding enlist swept settle
alone w id j p q differs at fresh =
    let which = is_for p.conn_path p.setting in
    let m = (sweep which true w.agent.on_resolved w.agent.pending).0 in
    elim (Option-cases (lookup j w.agent.pending)) [
      | inl free ↦ absurd (
          ground (
            arith,
            lookup-insert id j p m,
            lookup-sweep which true w.agent.pending w.agent.on_resolved j,
          ))
      | inr (r, before) ↦ ground (
        arith,
        lookup-insert id j p m,
        lookup-sweep which true w.agent.pending w.agent.on_resolved j,
      )
    ]

module _ (w : World) (id : String) (p : Pending) (unused : any (str_eq id) w.issued ≡ false)
    (new : IsNew id p) where
  -- The request under `i` is the new one.
  the_new :
      (i : String) (q : Pending)
      → str_eq id i ≡ true
      → lookup i (enlist id p w.agent).0.pending ≡ some q
      → q ≡ p
  unfolding enlist
  the_new i q same at =
      let m = (sweep (is_for p.conn_path p.setting) true w.agent.on_resolved w.agent.pending).0 in
      ground (arith, lookup-insert id i p m)

  ask-OneOpen :
      Inv w
      → OneOpen w
      → OneOpen (record (after w (enlist id p w.agent)) { issued = id ∷ w.issued })
  ask-OneOpen inv one i j q r (at_i, open_i) (at_j, open_j) same_path same_setting =
      let step : Step w (record (after w (enlist id p w.agent)) { issued = id ∷ w.issued }) =
        ask id p unused new in
      let g = (Step-cases inv step).1 i in
      let h = (Step-cases inv step).1 j in
      elim (open_move (str_eq id i) _ _ g.more q g.moves at_i open_i) [
        | inl new_i ↦ elim (open_move (str_eq id j) _ _ h.more r h.moves at_j open_j) [
          | inl new_j ↦ sym ((eq_iff id i).0 new_i) ∙ (eq_iff id j).0 new_j
          | inr old_j ↦ elim (Bool-cases (str_eq id j)) [
            | inl new_j ↦ sym ((eq_iff id i).0 new_i) ∙ (eq_iff id j).0 new_j
            | inr differs ↦ absurd (
                ground (
                  arith,
                  the_new i q new_i at_i,
                  alone w id j p r differs at_j open_j,
                  eq_iff r.conn_path p.conn_path,
                  eq_iff r.setting p.setting,
                ))
          ]
        ]
        | inr old_i ↦ elim (open_move (str_eq id j) _ _ h.more r h.moves at_j open_j) [
          | inr old_j ↦ one i j q r (old_i, open_i) (old_j, open_j) same_path same_setting
          | inl new_j ↦ elim (Bool-cases (str_eq id i)) [
            | inl new_i ↦ sym ((eq_iff id i).0 new_i) ∙ (eq_iff id j).0 new_j
            | inr differs ↦ absurd (
                ground (
                  arith,
                  the_new j r new_j at_j,
                  alone w id i p q differs at_i open_i,
                  eq_iff q.conn_path p.conn_path,
                  eq_iff q.setting p.setting,
                ))
          ]
        ]
      ]

-- No other step makes a request.
quiet-OneOpen :
    {w v : World} (st : Step w v)
    → ((id : String) → asks st id ≡ false)
    → Inv w
    → OneOpen w
    → OneOpen v
quiet-OneOpen st quiet inv one i j q r (at_i, open_i) (at_j, open_j) =
    let g = (Step-cases inv st).1 i in
    let h = (Step-cases inv st).1 j in
    elim (open_move (asks st i) _ _ g.more q g.moves at_i open_i) [
      | inl asked ↦ absurd (ground (arith, quiet i))
      | inr old_i ↦ elim (open_move (asks st j) _ _ h.more r h.moves at_j open_j) [
        | inl asked ↦ absurd (ground (arith, quiet j))
        | inr old_j ↦ one i j q r (old_i, open_i) (old_j, open_j)
      ]
    ]

step-OneOpen : {w v : World} → Step w v → Inv w → OneOpen w → OneOpen v
step-OneOpen {w} (ask id p unused new) inv one = ask-OneOpen w id p unused new inv one
step-OneOpen (Step.answers j ans) inv one = quiet-OneOpen (Step.answers j ans) (λ id. refl) inv one
step-OneOpen (Step.cancels j) inv one = quiet-OneOpen (Step.cancels j) (λ id. refl) inv one
step-OneOpen (Step.cancels_by_nm c s) inv one =
    quiet-OneOpen (Step.cancels_by_nm c s) (λ id. refl) inv one
step-OneOpen (Step.expires j) inv one = quiet-OneOpen (Step.expires j) (λ id. refl) inv one
step-OneOpen (Step.closes j) inv one = quiet-OneOpen (Step.closes j) (λ id. refl) inv one
step-OneOpen Step.cancels_all inv one = quiet-OneOpen Step.cancels_all (λ id. refl) inv one
step-OneOpen (Step.forgets j p e d) inv one =
    quiet-OneOpen (Step.forgets j p e d) (λ id. refl) inv one

-- At no time are two requests open for one profile and one setting, whatever calls of GetSecrets,
-- answers, cancellations and timers came before.
pub single_request :
    {w v : World}
    → IsStart w
    → Reach w v
    → (i j : String) (p q : Pending) → Open v i p
    → Open v j q
    → p.conn_path ≡ q.conn_path
    → p.setting ≡ q.setting
    → i ≡ j
unfolding lookup
single_request s here i j p q (at, fresh) rest same_path same_setting =
    absurd (ground (arith, s.none_pending))
single_request s (next r st) i j p q is_p is_q same_path same_setting =
    step-OneOpen st (Reach-Inv (start-Inv s) r) (single_request s r) i j p q is_p is_q same_path
      same_setting

-- ===== src/Nm/Agent/Superseded.antt =====
-- A request that a newer one for the same profile and setting supersedes.
use better_nm.Prelude.{
  ℕ, String, ◌∷◌, Bool, true, false, not, ◌&&◌, Option, none, some, lookup, lookup-insert, any,
  str_eq, ◌≡◌, refl, ◌∙◌, arith, eq_iff, Bool-cases, ◌⊎◌, inl, inr,
}
use better_nm.Core.Secrets.{cancelled}
use better_nm.Nm.Agent.{Pending, no_answer, settle, is_for, sweep, enlist}
use better_nm.Nm.Agent.World.{World, IsNew, after, ask, Reach, here, next, IsStart}
use better_nm.Nm.Agent.Requests.{times, times-append, swept, lookup-sweep}
use better_nm.Nm.Agent.Lives.{Move, stays, begins, ends, superseded, dropped, Inv}
use better_nm.Nm.Agent.Steps.{asks}
use better_nm.Nm.Agent.Sound.{Step-cases}
use better_nm.Nm.Agent.Once.{start-Inv, Reach-Inv, announced_once}
use better_nm.Nm.Agent.Waits.{verdict_from}
use better_nm.Nm.Agent.Unique.{Open}

-- Nothing is announced of a request that was resolved before.
quiet_move :
    (p : Pending) (asked : Bool) (old new : Option Pending) (more : ℕ)
    → p.resolved ≡ true
    → Move asked old new more
    → (old ≡ some p) ⊎ (old ≡ none)
    → more ≡ 0
quiet_move p asked old new more done (stays e n) at = n
quiet_move p asked old new more done (begins q yes_asked e f g n) at = n
quiet_move p asked old new more done (ends q r e f g h n) (inl at) = absurd (ground arith)
quiet_move p asked old new more done (ends q r e f g h n) (inr at) = cc
quiet_move p asked old new more done (superseded q e f g n) at = n
quiet_move p asked old new more done (dropped q e f g n) at = n

module _ {x : World} (inv : Inv x) (id : String) (p : Pending)
    (at : lookup id x.agent.pending ≡ some p) where
  times_stay : {v : World} → p.resolved ≡ true → Reach x v → times id v.log ≡ times id x.log
  times_stay done here = refl
  times_stay done (next r st) =
      let g = (Step-cases (Reach-Inv inv r) st).1 id in
      omega (
        arith,
        times_stay done r,
        g.counted,
        quiet_move p (asks st id) _ _ g.more done g.moves (verdict_from inv id p at done r),
      )

-- The world after GetSecrets has made a request.
abbrev pub asked_for : String → Pending → World → World
asked_for id p u = record (after u (enlist id p u.agent)) { issued = id ∷ u.issued }

-- If GetSecrets is called for a profile and a setting for which a request is open, that one is
-- resolved as cancelled, and no handler is ever told that it ended.
pub superseded_silent :
    {w u v : World} (id j : String) (p q : Pending)
    → IsStart w
    → Reach w u
    → (unused : any (str_eq id) u.issued ≡ false) → (new : IsNew id p) → Open u j q
    → q.conn_path ≡ p.conn_path
    → q.setting ≡ p.setting
    → Reach (asked_for id p u) v
    → (lookup j (asked_for id p u).agent.pending ≡ some (settle cancelled no_answer true q))
      × (times j v.log ≡ 0)
unfolding enlist swept times
superseded_silent {u} id j p q s r unused new (at, fresh) same_path same_setting r' =
    let inv = Reach-Inv (start-Inv s) r in
    let which = is_for p.conn_path p.setting in
    let m = (sweep which true u.agent.on_resolved u.agent.pending).0 in
    let x = asked_for id p u in
    let differs : str_eq id j ≡ false = elim (Bool-cases (str_eq id j)) [
      | inl same ↦ absurd (ground (arith, eq_iff id j, inv.drawn j q at))
      | inr differs ↦ differs
    ] in
    let picked : which q && not q.resolved ≡ true =
      ground (arith, eq_iff q.conn_path p.conn_path, eq_iff q.setting p.setting) in
    let left : lookup j x.agent.pending ≡ some (settle cancelled no_answer true q) = ground (
      arith,
      lookup-insert id j p m,
      lookup-sweep which true u.agent.pending u.agent.on_resolved j,
    ) in
    let before : times j u.log ≡ 0 = ((announced_once s r j).1 q at).0 fresh in
    (
      left,
      times_stay (Step-cases inv (ask id p unused new)).0 j (settle cancelled no_answer true q) left
            (unfold settle in refl) r'
          ∙ times-append j u.log _
          ∙ omega (arith, before),
    )

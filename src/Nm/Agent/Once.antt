-- ===== src/Nm/Agent/Once.antt =====
-- A request for secrets over its whole life: how often it is announced as ended, what becomes of its
-- outcome, and that a call of GetSecrets does not wait for ever.
use better_nm.Prelude.{
  ℕ, ◌+◌, ◌≤◌, String, Bool, true, false, some, lookup, ◌≡◌, sym, ◌∙◌, arith, eq_iff,
}
use better_nm.Nm.Agent.{Pending, settle}
use better_nm.Nm.Agent.World.{World, Step, ask, Reach, here, next, IsStart}
use better_nm.Nm.Agent.Requests.{times}
use better_nm.Nm.Agent.Lives.{Move, stays, begins, ends, superseded, dropped, Inv}
use better_nm.Nm.Agent.Steps.{asks}
use better_nm.Nm.Agent.Sound.{Step-cases}

pub start-Inv : {w : World} → IsStart w → Inv w
unfolding times lookup
start-Inv {w} s = record {
  listening = s.listening;
  distinct = rw s.none_pending tt;
  keyed = rw s.none_pending tt;
  drawn = λ id p at. absurd (ground (arith, s.none_pending));
  silent = λ id unused. ground (arith, s.none_logged);
}

pub Reach-Inv : {w v : World} → Inv w → Reach w v → Inv v
Reach-Inv inv here = inv
Reach-Inv inv (next r st) = (Step-cases (Reach-Inv inv r) st).0

-- What the log says of one request.
record Told (w : World) (id : String) : Type 0 where
  once : times id w.log ≤ 1
  open_yet :
      (p : Pending) → lookup id w.agent.pending ≡ some p → p.resolved ≡ false → times id w.log ≡ 0
  closed :
      (p : Pending)
      → lookup id w.agent.pending ≡ some p
      → p.resolved ≡ true
      → p.by_nm ≡ false
      → times id w.log ≡ 1

move-Told :
    (w v : World) (id : String) (asked : Bool) (more : ℕ)
    → (asked ≡ true → times id w.log ≡ 0)
    → Told w id
    → Move asked (lookup id w.agent.pending) (lookup id v.agent.pending) more
    → times id v.log ≡ times id w.log + more
    → Told v id
unfolding settle
move-Told w v id asked more new t (stays e n) c = record {
  once = omega (arith, t.once);
  open_yet = λ p at fresh. omega (arith, t.open_yet p (sym e ∙ at) fresh);
  closed = λ p at done by_hand. omega (arith, t.closed p (sym e ∙ at) done by_hand);
}
move-Told w v id asked more new t (begins p yes_asked e f g n) c = record {
  once = omega (arith, new yes_asked);
  open_yet = λ q at fresh. omega (arith, new yes_asked);
  closed = λ q at done by_hand. absurd (ground arith);
}
move-Told w v id asked more new t (ends p q e f g h n) c = record {
  once = omega (arith, t.open_yet p e f);
  open_yet = λ r at fresh. absurd (ground arith);
  closed = λ r at done by_hand. omega (arith, t.open_yet p e f);
}
move-Told w v id asked more new t (superseded p e f g n) c = record {
  once = omega (arith, t.once);
  open_yet = λ r at fresh. absurd (ground arith);
  closed = λ r at done by_hand. absurd (ground arith);
}
move-Told w v id asked more new t (dropped p e f g n) c = record {
  once = omega (arith, t.once);
  open_yet = λ r at fresh. absurd (ground arith);
  closed = λ r at done by_hand. absurd (ground arith);
}

asks-new :
    {w v : World} → Inv w → (st : Step w v) (id : String) → asks st id ≡ true → times id w.log ≡ 0
asks-new {w} inv (ask j p unused new) id asked =
    inv.silent id (rw ((eq_iff j id).0 asked) at unused)
asks-new inv _ id asked = cc

Reach-Told : {w v : World} → IsStart w → Reach w v → (id : String) → Told v id
unfolding times lookup
Reach-Told {w} s here id = record {
  once = ground (arith, s.none_logged);
  open_yet = λ p at fresh. absurd (ground (arith, s.none_pending));
  closed = λ p at done by_hand. absurd (ground (arith, s.none_pending));
}
Reach-Told {w} {v} s (next {u} r st) id =
    let inv = Reach-Inv (start-Inv s) r in
    let g = (Step-cases inv st).1 id in
    move-Told u v id (asks st id) g.more (asks-new inv st id) (Reach-Told s r id) g.moves g.counted

-- Whatever calls of GetSecrets, answers, cancellations, timers and shutdowns come and in whatever
-- order: a request is announced as ended at most once, never while it is open, and exactly once when
-- it was resolved in another way than for NetworkManager.
pub announced_once :
    {w v : World}
    → IsStart w
    → Reach w v
    → (id : String)
    → (times id v.log ≤ 1)
      × ((p : Pending)
          → lookup id v.agent.pending ≡ some p
          → (p.resolved ≡ false → times id v.log ≡ 0)
            × (p.resolved ≡ true → p.by_nm ≡ false → times id v.log ≡ 1))
announced_once s r id =
    let t = Reach-Told s r id in (t.once, λ p at. (t.open_yet p at, t.closed p at))

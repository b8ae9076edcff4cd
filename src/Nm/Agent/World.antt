-- ===== src/Nm/Agent/World.antt =====
-- The agent among its callers: calls of GetSecrets, the surfaces, NetworkManager, timers and the
-- shutdown act in any order. `issued` holds the IDs that were drawn, `log` the calls to the handlers.
use better_nm.Prelude.{
  String, List, [], ◌∷◌, ◌++◌, true, false, Option, some, any, lookup, str_eq, ◌≡◌,
}
use better_nm.Core.Errors.{GoError}
use better_nm.Core.Secrets.{SecretAnswer, SecretOutcome, cancelled}
use better_nm.Nm.Agent.{
  Pending, Agent, Notice, no_answer, resolve, cancel_by_nm, cancel_all, forget, enlist,
}
use better_nm.Nm.Agent.Broker.{answer, cancel}

pub record World : Type 0 where
  pub agent : Agent
  pub issued : List String
  pub log : List Notice

-- A new request, open, under the ID that it carries.
pub record IsNew (id : String) (p : Pending) : Type 0 where
  pub named : p.req.id ≡ id
  pub fresh : p.resolved ≡ false

abbrev pub after : World → Agent × List Notice → World
after w (a, out) = record w { agent = a; log = w.log ++ out }

abbrev pub effect : Agent × List Notice × Option GoError → Agent × List Notice
effect (a, out, e) = (a, out)

pub data Step (w : World) : World → Type 0 where
  -- GetSecrets makes a request under an ID that was never drawn.
  ask :
      (id : String) (p : Pending)
      → any (str_eq id) w.issued ≡ false
      → IsNew id p
      → Step w (record (after w (enlist id p w.agent)) { issued = id ∷ w.issued })
  -- A surface answers or cancels.
  answers : (id : String) (ans : SecretAnswer) → Step w (after w (effect (answer id ans w.agent)))
  cancels : (id : String) → Step w (after w (effect (cancel id w.agent)))
  -- NetworkManager gives up on a request.
  cancels_by_nm :
      (conn_path setting : String) → Step w (after w (cancel_by_nm conn_path setting w.agent))
  -- The timer of a waiting call, and the end of its context.
  expires :
      (id : String) → Step w (after w (resolve id SecretOutcome.timeout no_answer false w.agent))
  closes : (id : String) → Step w (after w (resolve id cancelled no_answer false w.agent))
  -- The client shuts down.
  cancels_all : Step w (after w (cancel_all w.agent))
  -- Some time after a call of GetSecrets has returned, its request is dropped.
  forgets :
      (id : String) (p : Pending)
      → lookup id w.agent.pending ≡ some p
      → p.resolved ≡ true
      → Step w (record w { agent = forget id w.agent })

pub data Reach (w : World) : World → Type 0 where
  here : Reach w w
  next : {u v : World} → Reach w u → Step u v → Reach w v

-- An agent whose handlers are set, as the daemon sets them, and that nobody has asked yet.
pub record IsStart (w : World) : Type 0 where
  pub none_pending : w.agent.pending ≡ []
  pub none_issued : w.issued ≡ []
  pub none_logged : w.log ≡ []
  pub listening : w.agent.on_resolved ≡ true

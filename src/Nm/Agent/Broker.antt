-- ===== src/Nm/Agent/Broker.antt =====
-- internal/nm/agent.go: what the surfaces do with the requests that are open.
use better_nm.Prelude.{
  ℕ, ◌+◌, String, List, [], ◌∷◌, Bool, true, false, not, ◌&&◌, Option, none, some, Assoc, lookup,
  insert, map, is_some, str_eq, ltb, ◌==◌, if◌then◌else◌, ◌+s◌,
}
use better_nm.Core.Errors.{GoError}
use better_nm.Core.Secrets.{
  SecretField, SecretRequest, SecretAnswer, SecretOutcome, answered, cancelled,
}
use better_nm.Monitor.Engine.{text_less}
use better_nm.Nm.Errors.{new_err, err_not_found, err_conflict}
use better_nm.Nm.Texts.{join}
use better_nm.Nm.Variant.{real_path}
use better_nm.Nm.Agent.{Pending, Agent, Notice, no_answer, resolve_locked}

abbrev outcome_word : SecretOutcome → String
outcome_word answered = "answered"
outcome_word SecretOutcome.timeout = "timed out"
outcome_word _ = "cancelled"

-- The number of requested fields that an answer fills in.
unfoldable pub filled : List SecretField → SecretAnswer → ℕ
filled [] ans = 0
filled (f ∷ fs) ans = (if is_some (lookup f.key ans.secrets) then 1 else 0) + filled fs ans

-- The broker's Answer.
unfoldable pub answer : String → SecretAnswer → Agent → Agent × List Notice × Option GoError
unfolding filled resolve_locked new_err join
answer id ans a =
    let op = "answer secret request " +s id in
    elim (lookup id a.pending) [
      | none ↦
          (a, [], some (new_err op (some err_not_found) "no such request (it may have expired)"))
      | some p ↦
          if p.resolved
          then (
            a,
            [],
            some (new_err op (some err_conflict) ("request already " +s outcome_word p.outcome)),
          )
          else if filled p.req.fields ans == 0
          then (
            a,
            [],
            some (
                new_err op none (
                  "answer carries none of the requested secrets ("
                  +s (join ", " (map (λ f. f.key) p.req.fields) +s ")"))),
          )
          else let (p', out) = resolve_locked a.on_resolved answered ans false p in
            (record a { pending = insert id p' a.pending }, out, none)
    ]

-- The broker's Cancel.
unfoldable pub cancel : String → Agent → Agent × List Notice × Option GoError
unfolding resolve_locked new_err
cancel id a =
    let op = "cancel secret request " +s id in
    elim (lookup id a.pending) [
      | none ↦
          (a, [], some (new_err op (some err_not_found) "no such request (it may have expired)"))
      | some p ↦
          if p.resolved
          then (
            a,
            [],
            some (new_err op (some err_conflict) ("request already " +s outcome_word p.outcome)),
          )
          else let (p', out) = resolve_locked a.on_resolved cancelled no_answer false p in
            (record a { pending = insert id p' a.pending }, out, none)
    ]

-- The order of the broker's Pending: by the time, then by the ID.
abbrev earlier : SecretRequest → SecretRequest → Bool
earlier r s =
    if not (r.created_at == s.created_at)
    then ltb r.created_at s.created_at
    else text_less r.id s.id

unfoldable insert_request : SecretRequest → List SecretRequest → List SecretRequest
insert_request r [] = r ∷ []
insert_request r (s ∷ rest) = if earlier s r then s ∷ insert_request r rest else r ∷ (s ∷ rest)

unfoldable open_requests : Assoc Pending → List SecretRequest
unfolding insert_request
open_requests [] = []
open_requests ((id, p) ∷ m) =
    let rest = open_requests m in if p.resolved then rest else insert_request p.req rest

-- The broker's Pending.
unfoldable pending_list : Agent → List SecretRequest
unfolding open_requests
pending_list a = open_requests a.pending

unfoldable has_open : String → Assoc Pending → Bool
has_open conn_path [] = false
has_open conn_path ((id, p) ∷ m) =
    if not p.resolved && str_eq p.conn_path conn_path then true else has_open conn_path m

unfoldable pending_for : String → Agent → Bool
unfolding real_path has_open
pending_for conn_path a = if not (real_path conn_path) then false else has_open conn_path a.pending

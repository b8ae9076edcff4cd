-- ===== src/Nm/Agent.antt =====
-- internal/nm/agent.go: the secret agent. An operation returns the new agent beside the calls that
-- it makes to the handlers, in order; a call to a handler that is not set is none. A call of
-- GetSecrets is `get_secrets`, what its `select` may resolve while it waits, and `reply`. The
-- channel of a request is closed exactly if it is resolved.
pub mod Broker
pub mod World
pub mod Lives
pub mod Requests
pub mod Steps
pub mod Sound
pub mod Once
pub mod Waits
pub mod Unique
pub mod Superseded
pub mod Replies
use better_nm.Prelude.{
  ℕ, ◌+◌, String, List, [], ◌∷◌, ◌++◌, Bool, true, false, not, ◌&&◌, ◌||◌, Option, none, some,
  Assoc, lookup, insert, erase, map, is_some, str_eq, ltb, ◌==◌, if◌then◌else◌, ◌+s◌,
}
use better_nm.Core.Errors.{GoError}
use better_nm.Core.Secrets.{
  SecretField, SecretRequest, SecretAnswer, SecretOutcome, answered, cancelled,
}
use better_nm.Monitor.Engine.{text_less}
use better_nm.Nm.Errors.{new_err, err_not_found, err_conflict}
use better_nm.Nm.Request.{allow_interaction, user_requested, build_secret_request}
use better_nm.Nm.Reply.{secret_flags_of, secrets_reply, needs_persist}
use better_nm.Nm.Texts.{join}
use better_nm.Nm.Variant.{SettingsDict, real_path}

-- `secretRequest`
pub record Pending : Type 0 where
  pub req : SecretRequest
  pub conn_path : String
  pub setting : String
  pub flags : Assoc ℕ
  pub answer : SecretAnswer
  pub outcome : SecretOutcome
  pub by_nm : Bool
  pub resolved : Bool

pub record Agent : Type 0 where
  pub timeout : ℕ
  pub prompt_autoconnect : Bool
  pub pending : Assoc Pending
  pub on_needed : Bool
  pub on_resolved : Bool
  pub registered : Bool
  pub exported : Bool

-- A call to one of the two handlers.
pub data Notice : Type 0 where
  needed : SecretRequest → Notice
  ended : String → SecretOutcome → Notice

-- The error names that NetworkManager understands.
pub data AgentError : Type 0 where
  err_failed err_no_secrets err_user_canceled err_agent_canceled : AgentError

pub data Reply : Type 0 where
  secrets : SettingsDict → Reply
  refused : AgentError → Reply

unfoldable new_agent : ℕ → Agent
new_agent limit = record {
  timeout = if ltb 0 limit then limit else 120000000000;
  prompt_autoconnect = false;
  pending = [];
  on_needed = false;
  on_resolved = false;
  registered = false;
  exported = false;
}

abbrev pub no_answer : SecretAnswer
no_answer = record { secrets = []; save = false }

-- `resolveLocked` of a request that is open.
unfoldable pub settle : SecretOutcome → SecretAnswer → Bool → Pending → Pending
settle outcome ans by_nm p = record p {
  resolved = true;
  outcome = outcome;
  answer = ans;
  by_nm = by_nm;
}

-- `resolveLocked`: the request, and the callback.
unfoldable pub resolve_locked :
    Bool → SecretOutcome → SecretAnswer → Bool → Pending → Pending × List Notice
unfolding settle
resolve_locked on_resolved outcome ans by_nm p =
    if p.resolved
    then (p, [])
    else (settle outcome ans by_nm p, if on_resolved then ended p.req.id outcome ∷ [] else [])

unfoldable pub resolve : String → SecretOutcome → SecretAnswer → Bool → Agent → Agent × List Notice
unfolding resolve_locked
resolve id outcome ans by_nm a = elim (lookup id a.pending) [
  | none ↦ (a, [])
  | some p ↦
      let (p', out) = resolve_locked a.on_resolved outcome ans by_nm p in
      (record a { pending = insert id p' a.pending }, out)
]

-- A loop over the pending requests that resolves those that `which` picks.
unfoldable pub sweep : (Pending → Bool) → Bool → Bool → Assoc Pending → Assoc Pending × List Notice
unfolding resolve_locked
sweep which by_nm on_resolved [] = ([], [])
sweep which by_nm on_resolved ((id, p) ∷ m) =
    let (m', out) = sweep which by_nm on_resolved m in
    if which p
    then (let (p', one) = resolve_locked on_resolved cancelled no_answer by_nm p in
        ((id, p') ∷ m', one ++ out))
    else ((id, p) ∷ m', out)

-- `!p.resolved && p.connPath == connPath && p.setting == settingName`
abbrev pub is_for : String → String → Pending → Bool
is_for conn_path setting p =
    not p.resolved && str_eq p.conn_path conn_path && str_eq p.setting setting

-- CancelGetSecrets
unfoldable pub cancel_by_nm : String → String → Agent → Agent × List Notice
unfolding sweep
cancel_by_nm conn_path setting a =
    let (m, out) = sweep (is_for conn_path setting) true a.on_resolved a.pending in
    (record a { pending = m }, out)

unfoldable pub cancel_all : Agent → Agent × List Notice
unfolding sweep
cancel_all a =
    let (m, out) = sweep (λ p. true) false a.on_resolved a.pending in
    (record a { pending = m }, out)

unfoldable pub forget : String → Agent → Agent
forget id a = record a { pending = erase id a.pending }

-- The checks of `getSecrets` before a request is made: `trusted` is what the check of the caller
-- says, and `random` whether an ID could be drawn.
unfoldable pub admit : Bool → ℕ → Bool → Agent → Option AgentError
admit trusted flags random a =
    if not trusted
    then some err_failed
    else if not (allow_interaction flags)
    then some err_no_secrets
    else if not (user_requested flags) && not a.prompt_autoconnect
    then some err_no_secrets
    else if not a.on_needed
    then some err_no_secrets
    else if not random
    then some err_failed
    else none

-- The critical section of `getSecrets` and the call of the handler: an open request for the same
-- profile and setting is resolved, and the callback of its resolution is not run.
unfoldable pub enlist : String → Pending → Agent → Agent × List Notice
unfolding sweep
enlist id p a =
    let (m, out) = sweep (is_for p.conn_path p.setting) true a.on_resolved a.pending in
    (record a { pending = insert id p m }, needed p.req ∷ [])

module _ (ssid_text : List ℕ → String) (encode : String → List ℕ) where
  -- The request that `getSecrets` makes.
  unfoldable pub new_pending :
      String → SettingsDict → String → String → List String → ℕ → ℕ → Agent → Pending
  unfolding build_secret_request secret_flags_of
  new_pending id conn conn_path setting hints flags now a =
      let req =
        build_secret_request ssid_text encode id conn setting hints flags now (now + a.timeout) in
      record {
        req = req;
        conn_path = conn_path;
        setting = setting;
        flags = secret_flags_of conn setting req.fields;
        answer = no_answer;
        outcome = SecretOutcome.unset;
        by_nm = false;
        resolved = false;
      }

  -- `getSecrets` up to its wait: the error it returns at once, or none.
  unfoldable pub get_secrets :
      Bool
      → Option String
      → SettingsDict
      → String
      → String
      → List String
      → ℕ
      → ℕ
      → Agent
      → Agent × List Notice × Option AgentError
  unfolding admit enlist new_pending
  get_secrets trusted random conn conn_path setting hints flags now a =
      elim (admit trusted flags (is_some random) a) [
        | some e ↦ (a, [], some e)
        | none ↦ elim random [
          | none ↦ (a, [], some err_failed)
          | some id ↦
              let (a', out) =
                enlist id (new_pending id conn conn_path setting hints flags now a) a in
              (a', out, none)
        ]
      ]

-- `getSecrets` behind its wait: the reply, and whether the secrets are handed to `persist`.
unfoldable pub reply : Bool → Pending → Reply × Bool
unfolding secrets_reply needs_persist
reply has_persist p = elim p.outcome [
  | answered ↦ (
    secrets (secrets_reply p.setting p.req p.answer),
    p.answer.save && has_persist && needs_persist p.flags,
  )
  | SecretOutcome.timeout ↦ (refused err_user_canceled, false)
  | _ ↦ (refused (if p.by_nm then err_agent_canceled else err_user_canceled), false)
]

-- ===== src/Nm/Agent/Replies.antt =====
-- What an answer leads to: the reply to NetworkManager, and the errors of later answers.
use better_nm.Prelude.{
  ℕ, String, List, [], ◌∷◌, Bool, true, false, ◌&&◌, none, some, Assoc, lookup, lookup-insert,
  is_some, any, str_eq, if◌then◌else◌, ◌≡◌, ◌≢◌, ◌⊎◌, refl, arith, eq_iff, Option-cases, inl, inr,
}
use better_nm.Core.Errors.{ErrorKind, conflict, not_found, kind_of, error_as}
use better_nm.Core.Secrets.{SecretField, SecretAnswer, answered}
use better_nm.Nm.Agent.{
  Pending, Agent, Notice, secrets, settle, resolve_locked, admit, enlist, new_pending, get_secrets,
  reply,
}
use better_nm.Nm.Agent.Broker.{filled, answer, cancel}
use better_nm.Nm.Agent.World.{World, IsNew, after, effect, answers, Reach, next, IsStart}
use better_nm.Nm.Agent.Once.{start-Inv, Reach-Inv}
use better_nm.Nm.Agent.Waits.{verdict_from}
use better_nm.Nm.Consts.{setting_vpn}
use better_nm.Nm.Errors.{new_err, nm_error}
use better_nm.Nm.Request.{build_secret_request}
use better_nm.Nm.Reply.{with_secret, vpn_secrets, vpn_data, data_entry, secrets_reply}
use better_nm.Nm.Variant.{Props, SettingsDict, one, str_map}

-- A field asks for the key as a secret.
abbrev is_asked : String → List SecretField → Bool
is_asked k fs = any (λ f. f.secret && str_eq f.key k) fs

lookup-with_secret :
    (a : SecretAnswer) (f : SecretField) (m : Assoc String) (k : String)
    → lookup k (with_secret a f m) ≡ (
        if f.secret && str_eq f.key k && is_some (lookup k a.secrets)
        then lookup k a.secrets
        else lookup k m)
unfolding with_secret
lookup-with_secret a f m k = elim (Option-cases (lookup f.key a.secrets)) [
  | inl absent ↦ ground (arith, eq_iff f.key k)
  | inr (v, given) ↦ ground (arith, lookup-insert f.key k v m, eq_iff f.key k)
]

vpn_secrets_lem :
    (a : SecretAnswer) (fs : List SecretField) (m : Assoc String) (k : String)
    → lookup k (vpn_secrets a fs m)
      ≡ (if is_asked k fs && is_some (lookup k a.secrets) then lookup k a.secrets else lookup k m)
unfolding vpn_secrets
vpn_secrets_lem a [] m k = refl
vpn_secrets_lem a (f ∷ fs) m k =
    ground (arith, vpn_secrets_lem a fs (with_secret a f m) k, lookup-with_secret a f m k)

-- The reply to an answered request of a VPN holds under `vpn.secrets`, for every key, what the answer
-- gives for it if the request asked for it as a secret, and nothing else.
reply_exact :
    (p : Pending) (has_persist : Bool)
    → p.outcome ≡ answered
    → p.setting ≡ setting_vpn
    → (m : Assoc String) × (rest : Props) × ((reply has_persist p).0
        ≡ secrets ((setting_vpn, ("secrets", one (str_map m)) ∷ rest) ∷ []))
      × ((k : String)
          → lookup k m ≡ (if is_asked k p.req.fields then lookup k p.answer.secrets else none))
unfolding reply secrets_reply lookup
reply_exact p has_persist done is_vpn = (
  vpn_secrets p.answer p.req.fields [],
  data_entry (vpn_data p.answer p.req.fields []),
  rw done (rw is_vpn refl),
  λ k. ground (arith, vpn_secrets_lem p.answer p.req.fields [] k),
)

-- A GetSecrets that waits has made a new request, under the ID that it drew.
get_secrets-asks :
    (ssid_text : List ℕ → String) (encode : String → List ℕ) (trusted : Bool) (id : String)
    (conn : SettingsDict) (conn_path setting : String) (hints : List String) (flags now : ℕ)
    (a a' : Agent) (out : List Notice)
    → get_secrets ssid_text encode trusted (some id) conn conn_path setting hints flags now a
      ≡ (a', out, none)
    → let p = new_pending ssid_text encode id conn conn_path setting hints flags now a in
      IsNew id p × ((a', out) ≡ enlist id p a)
unfolding get_secrets new_pending build_secret_request
get_secrets-asks ssid_text encode trusted id conn conn_path setting hints flags now a a' out h =
    elim (Option-cases (admit trusted flags true a)) [
      | inl admitted ↦ (record { named = refl; fresh = refl }, ground arith)
      | inr (e, refused) ↦ absurd (ground arith)
    ]

-- An answer and a cancellation of the request are refused with that kind of error and change nothing.
abbrev pub Refuses : ErrorKind → String → SecretAnswer → Agent → Type 0
Refuses kind id again a =
    ((answer id again a).0 ≡ a)
    × (kind_of (answer id again a).2 ≡ kind)
    × ((cancel id a).0 ≡ a)
    × (kind_of (cancel id a).2 ≡ kind)

settled-Refuses :
    (id : String) (again : SecretAnswer) (a : Agent) (p : Pending)
    → lookup id a.pending ≡ some p
    → p.resolved ≡ true
    → Refuses conflict id again a
unfolding answer cancel kind_of error_as new_err nm_error
settled-Refuses id again a p at done = (ground arith, ground arith, ground arith, ground arith)

gone-Refuses :
    (id : String) (again : SecretAnswer) (a : Agent)
    → lookup id a.pending ≡ none
    → Refuses not_found id again a
unfolding answer cancel kind_of error_as new_err nm_error
gone-Refuses id again a at = (ground arith, ground arith, ground arith, ground arith)

-- An answer that is accepted gives a value for a requested key, and settles the open request.
answer-accepted :
    (id : String) (ans : SecretAnswer) (a : Agent)
    → (answer id ans a).2 ≡ none
    → (p : Pending) × (lookup id a.pending ≡ some p)
      × (p.resolved ≡ false)
      × (filled p.req.fields ans ≢ 0)
      × (lookup id (answer id ans a).0.pending ≡ some (settle answered ans false p))
unfolding answer resolve_locked
answer-accepted id ans a h = elim (Option-cases (lookup id a.pending)) [
  | inl absent ↦ absurd (ground arith)
  | inr (p, at) ↦
      let q = settle answered ans false p in
      (
        p,
        at,
        ground arith,
        ground arith,
        ground (arith, lookup-insert id id q a.pending, eq_iff id id),
      )
]

settle-resolved : (ans : SecretAnswer) (p : Pending) → (settle answered ans false p).resolved ≡ true
unfolding settle
settle-resolved ans p = refl

-- In any life of an agent an answer that is accepted is final: it gives a value for a requested key of
-- an open request, and in every later state, whatever happens, the request is still stored as answered
-- with it, and every answer or cancellation is refused as a conflict and changes nothing; or the
-- request has been dropped, and they are refused as not found and change nothing.
pub answer_final :
    {w u v : World} (id : String) (ans again : SecretAnswer)
    → IsStart w
    → Reach w u
    → (answer id ans u.agent).2 ≡ none
    → Reach (after u (effect (answer id ans u.agent))) v
    → (p : Pending) × (lookup id u.agent.pending ≡ some p)
      × (p.resolved ≡ false)
      × (filled p.req.fields ans ≢ 0)
      × (((lookup id v.agent.pending ≡ some (settle answered ans false p))
            × Refuses conflict id again v.agent)
          ⊎ ((lookup id v.agent.pending ≡ none) × Refuses not_found id again v.agent))
answer_final {u} {v} id ans again s r accepted r' =
    let (p, at, open_yet, gives, stored) = answer-accepted id ans u.agent accepted in
    let q = settle answered ans false p in
    let done = settle-resolved ans p in
    let inv = Reach-Inv (start-Inv s) (next r (answers id ans)) in
    (
      p,
      at,
      open_yet,
      gives,
      elim (verdict_from inv id q stored done r') [
        | inl still ↦ inl (still, settled-Refuses id again v.agent q still done)
        | inr gone ↦ inr (gone, gone-Refuses id again v.agent gone)
      ],
    )

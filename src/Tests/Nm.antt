-- ===== src/Tests/Nm.antt =====
-- The secret agent and the settings at concrete requests and profiles.
use better_nm.Prelude.{
  ◌≤◌, String, [], ◌∷◌, true, false, none, some, lookup, insert, any, str_eq, ◌≡◌, ◌≢◌, ◌⊎◌, refl,
}
use better_nm.Core.Errors.{conflict, not_found}
use better_nm.Core.Secrets.{
  SecretField, SecretRequest, SecretAnswer, SecretOutcome, answered, cancelled,
}
use better_nm.Nm.Agent.{Pending, Agent, no_answer, settle, enlist, resolve, resolve_locked, sweep}
use better_nm.Nm.Agent.Broker.{answer, filled}
use better_nm.Nm.Agent.World.{
  World, IsNew, after, effect, ask, answers, expires, Reach, here, next, IsStart,
}
use better_nm.Nm.Agent.Requests.{times}
use better_nm.Nm.Agent.Once.{announced_once}
use better_nm.Nm.Agent.Waits.{ResolvedBefore, wait_ends}
use better_nm.Nm.Agent.Unique.{single_request}
use better_nm.Nm.Agent.Superseded.{asked_for, superseded_silent}
use better_nm.Nm.Agent.Replies.{Refuses, answer_final}

abbrev listening : Agent
listening = record {
  timeout = 120000000000;
  prompt_autoconnect = false;
  pending = [];
  on_needed = true;
  on_resolved = true;
  registered = true;
  exported = true;
}

abbrev start : World
start = record { agent = listening; issued = []; log = [] }

start-IsStart : IsStart start
start-IsStart = record {
  none_pending = refl;
  none_issued = refl;
  none_logged = refl;
  listening = refl;
}

abbrev psk : SecretField
psk = record { key = "psk"; label = "Password"; secret = true }

abbrev request : String → SecretRequest
request id = record {
  id = id;
  connection_uuid = "uuid-home";
  connection_name = "Home";
  ssid = "home";
  vpn = false;
  vpn_kind = "";
  setting_name = "802-11-wireless-security";
  fields = psk ∷ [];
  message = "";
  request_new = false;
  user_requested = true;
  created_at = 1;
  expires_at = 120000000001;
}

abbrev waiting : String → Pending
waiting id = record {
  req = request id;
  conn_path = "/org/freedesktop/NetworkManager/Settings/1";
  setting = "802-11-wireless-security";
  flags = [];
  answer = no_answer;
  outcome = SecretOutcome.unset;
  by_nm = false;
  resolved = false;
}

abbrev password : SecretAnswer
password = record { secrets = ("psk", "open sesame") ∷ []; save = false }

-- A request is made, and answered.
abbrev asked : World
asked = asked_for "r1" (waiting "r1") start

abbrev told : World
told = after asked (effect (answer "r1" password asked.agent))

waiting-IsNew : (id : String) → IsNew id (waiting id)
waiting-IsNew id = record { named = refl; fresh = refl }

to_asked : Reach start asked
to_asked = next here (ask "r1" (waiting "r1") refl (waiting-IsNew "r1"))

to_told : Reach asked told
to_told = next here (answers "r1" password)

announced_once_example :
    (times "r1" told.log ≤ 1)
    × ((p : Pending)
        → lookup "r1" told.agent.pending ≡ some p
        → (p.resolved ≡ false → times "r1" told.log ≡ 0)
          × (p.resolved ≡ true → p.by_nm ≡ false → times "r1" told.log ≡ 1))
announced_once_example = announced_once start-IsStart (next to_asked (answers "r1" password)) "r1"

-- The answer was announced.
told_once : times "r1" told.log ≡ 1
unfolding times answer resolve_locked settle filled enlist sweep lookup insert
told_once = refl

asked_open : lookup "r1" asked.agent.pending ≡ some (waiting "r1")
unfolding enlist sweep lookup insert
asked_open = refl

wait_ends_example :
    let x = (resolve "r1" SecretOutcome.timeout no_answer false told.agent).0 in
    ((q : Pending) × (lookup "r1" x.pending ≡ some q)
      × (q.resolved ≡ true)
      × ((lookup "r1" told.agent.pending ≡ some q) ⊎ (q.outcome ≡ SecretOutcome.timeout)))
    ⊎ ResolvedBefore asked told "r1"
wait_ends_example = wait_ends "r1" (waiting "r1") start-IsStart to_asked asked_open to_told

-- A second request for the same profile and setting.
abbrev again : World
again = asked_for "r2" (waiting "r2") asked

r2_unused : any (str_eq "r2") asked.issued ≡ false
r2_unused = refl

to_again : Reach start again
to_again = next to_asked (ask "r2" (waiting "r2") r2_unused (waiting-IsNew "r2"))

again_open : lookup "r2" again.agent.pending ≡ some (waiting "r2")
unfolding enlist sweep resolve_locked settle lookup insert
again_open = refl

abbrev second_id : String
second_id = "r2"

single_request_example : second_id ≡ second_id
single_request_example =
    single_request start-IsStart to_again "r2" "r2" (waiting "r2") (waiting "r2") (again_open, refl)
      (again_open, refl) refl refl

superseded_silent_example :
    (lookup "r1" again.agent.pending ≡ some (settle cancelled no_answer true (waiting "r1")))
    × (times "r1" again.log ≡ 0)
superseded_silent_example =
    superseded_silent "r2" "r1" (waiting "r2") (waiting "r1") start-IsStart to_asked r2_unused
      (waiting-IsNew "r2") (asked_open, refl) refl refl here

password_taken : (answer "r1" password asked.agent).2 ≡ none
unfolding answer filled enlist sweep lookup insert
password_taken = refl

-- The timer of the answered request comes late.
abbrev late : World
late = after told (resolve "r1" SecretOutcome.timeout no_answer false told.agent)

answer_final_example :
    (p : Pending) × (lookup "r1" asked.agent.pending ≡ some p)
    × (p.resolved ≡ false)
    × (filled p.req.fields password ≢ 0)
    × (((lookup "r1" late.agent.pending ≡ some (settle answered password false p))
          × Refuses conflict "r1" no_answer late.agent)
        ⊎ ((lookup "r1" late.agent.pending ≡ none) × Refuses not_found "r1" no_answer late.agent))
answer_final_example =
    answer_final "r1" password no_answer start-IsStart to_asked password_taken
      (next here (expires "r1"))

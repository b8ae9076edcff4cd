-- ===== src/Daemon/Loop/Handlers.antt =====
-- internal/daemon/daemon.go: the handlers of the loop, the synchronous refresh after a mutation, and
-- the callbacks of the secret broker.
use better_nm.Prelude.{
  ℕ, ◌-◌, String, List, [], ◌∷◌, ◌++◌, Bool, true, false, not, ◌&&◌, Option, none, some, map, any,
  str_eq, ◌==◌, if◌then◌else◌, ◌+s◌,
}
use better_nm.Core.Event.{
  Event, EventType, degraded, recovered, secret_needed, secret_resolved, type_name,
}
use better_nm.Core.Secrets.{SecretRequest, SecretOutcome, timeout, outcome_name}
use better_nm.Core.Vpn.{Vpn}
use better_nm.Daemon.Bus.{ChangeKind, status, devices, wifi, vpn, monitor}
use better_nm.Daemon.Deriver.Machine.{flush, next_deadline}
use better_nm.Daemon.Loop.{
  Daemon, NmAnswers, refresh_nm, reads_well, refresh_vpn, refresh_monitor, sync_monitor_network,
  emit_events, derive, publish_changes,
}
use better_nm.Nm.Texts.{join}

-- A change as a backend sends it; none is the empty kind.
abbrev pub Change : Type 0
Change = Option ChangeKind × String

abbrev pub needs_wifi : ChangeKind × String → Bool
needs_wifi (status, path) = true
needs_wifi (devices, path) = true
needs_wifi (wifi, path) = true
needs_wifi (_, path) = false

unfoldable pub with_kind : ChangeKind → List Change → List (ChangeKind × String)
with_kind default [] = []
with_kind default ((none, path) ∷ rest) = (default, path) ∷ with_kind default rest
with_kind default ((some kind, path) ∷ rest) = (kind, path) ∷ with_kind default rest

-- `initialRead`; none is its error.
unfoldable pub initial_read : NmAnswers → Option (List Vpn) → String → ℕ → Daemon → Option Daemon
unfolding refresh_nm refresh_vpn refresh_monitor derive sync_monitor_network emit_events
initial_read w vpns monitor_key now d =
    if not (reads_well w)
    then none
    else (let d' =
          refresh_monitor monitor_key now (refresh_vpn vpns now (refresh_nm true w now d)) in
        let (d'', es) = derive now d' in some (emit_events es (sync_monitor_network d'')))

unfoldable pub on_nm_changes : List (ChangeKind × String) → NmAnswers → ℕ → Daemon → Daemon
unfolding refresh_nm derive sync_monitor_network publish_changes emit_events
on_nm_changes changes w now d =
    let (d', es) = derive now (refresh_nm (any needs_wifi changes) w now d) in
    emit_events es (publish_changes changes (sync_monitor_network d'))

unfoldable pub on_vpn_changes : List Change → Option (List Vpn) → ℕ → Daemon → Daemon
unfolding refresh_vpn derive publish_changes with_kind emit_events
on_vpn_changes changes vpns now d =
    let (d', es) = derive now (refresh_vpn vpns now d) in
    emit_events es (publish_changes (with_kind vpn changes) d')

unfoldable pub on_monitor_change : Change → String → ℕ → Daemon → Daemon
unfolding refresh_monitor publish_changes with_kind
on_monitor_change c key now d =
    publish_changes (with_kind monitor (c ∷ [])) (refresh_monitor key now d)

abbrev default_title : EventType → String
default_title degraded = "Network degraded"
default_title recovered = "Network recovered"
default_title t = type_name t

abbrev default_urgency : EventType → String
default_urgency degraded = "normal"
default_urgency _ = "low"

abbrev or_text : String → String → String
or_text s default = if str_eq s "" then default else s

-- An event of the monitor with what it left open filled in.
unfoldable pub complete : String → ℕ → Event → Event
complete key now e = record e {
  time = if e.time == 0 then now else e.time;
  network_key = or_text e.network_key key;
  title = or_text e.title (default_title e.type);
  urgency = or_text e.urgency (default_urgency e.type);
}

unfoldable pub on_monitor_event : Event → String → ℕ → Daemon → Daemon
unfolding complete refresh_monitor emit_events
on_monitor_event e key now d =
    emit_events (complete d.snap.network_key now e ∷ []) (refresh_monitor key now d)

-- `case <-timer.C`
unfoldable pub on_timer : ℕ → Daemon → Daemon
unfolding flush sync_monitor_network emit_events
on_timer now d =
    let (der', es) = flush now d.der in
    emit_events es (sync_monitor_network (record d { der = der' }))

-- `armTimer` after a handler: how long the timer runs, if it is set.
unfoldable pub arm_timer : ℕ → Daemon → Option ℕ
unfolding next_deadline
arm_timer now d = elim (next_deadline d.der) [ none ↦ none | some deadline ↦ some (deadline - now) ]

-- `Refresh`, which ends every `mutate`
unfoldable pub refresh : NmAnswers → Option (List Vpn) → String → ℕ → Daemon → Daemon
unfolding refresh_nm refresh_vpn refresh_monitor derive sync_monitor_network emit_events
refresh w vpns monitor_key now d =
    let d' = refresh_monitor monitor_key now (refresh_vpn vpns now (refresh_nm true w now d)) in
    let (d'', es) = derive now d' in
    record (emit_events es (sync_monitor_network d'')) { wake = true }

unfoldable secret_network_key : SecretRequest → String
secret_network_key req =
    if not (str_eq req.ssid "")
    then "wifi:" +s req.ssid
    else if req.vpn && not (str_eq req.connection_uuid "")
    then "vpn:" +s req.connection_uuid
    else if not (str_eq req.connection_uuid "")
    then "conn:" +s req.connection_uuid
    else ""

unfoldable secret_body : SecretRequest → String
unfolding join
secret_body req =
    or_text (join ", " (map (λ f. f.label) req.fields)) "Password"
    +s ((if req.vpn && not (str_eq req.vpn_kind "")
          then " for the " +s (req.vpn_kind +s " VPN")
          else if not (str_eq req.ssid "")
          then " for " +s req.ssid
          else "")
        +s ((if req.request_new then " (the previous one was rejected)" else "")
            +s ("."
                +s ((if not (str_eq req.message "") then " " +s req.message else "")
                    +s " run: bnm secrets"))))

abbrev secret_data : SecretRequest → List (String × String)
secret_data req =
    (("request_id", req.id)
      ∷ (("connection_uuid", req.connection_uuid)
          ∷ (("connection_name", req.connection_name) ∷ [])))
    ++ ((if str_eq req.ssid "" then [] else ("ssid", req.ssid) ∷ [])
        ++ (if req.vpn then ("vpn", "true") ∷ [] else []))

unfoldable pub on_secret_needed : SecretRequest → ℕ → Daemon → Daemon
unfolding secret_network_key secret_body emit_events
on_secret_needed req now d =
    let name = or_text req.connection_name (or_text req.ssid req.connection_uuid) in
    emit_events
      (record {
        time = now;
        type = secret_needed;
        network_key = secret_network_key req;
        title = "Password needed for " +s name;
        body = secret_body req;
        urgency = "normal";
        extra = secret_data req;
      }
        ∷ [])
      d

abbrev resolved_title : SecretOutcome → String
resolved_title timeout = "Password prompt timed out"
resolved_title o = "Password prompt " +s outcome_name o

unfoldable pub on_secret_resolved : String → SecretOutcome → ℕ → Daemon → Daemon
unfolding emit_events
on_secret_resolved id outcome now d =
    emit_events
      (record {
        time = now;
        type = secret_resolved;
        network_key = "";
        title = resolved_title outcome;
        body = "";
        urgency = "low";
        extra = ("request_id", id) ∷ (("outcome", outcome_name outcome) ∷ []);
      }
        ∷ [])
      d

abbrev pub take_first : List Event → Daemon → Daemon × Option Event
take_first [] d = (d, none)
take_first (e ∷ rest) d = (record d { notify_ch = rest }, some e)

-- `notifyLoop` takes the oldest event, if there is one.
unfoldable pub take_notification : Daemon → Daemon × Option Event
take_notification d = take_first d.notify_ch d

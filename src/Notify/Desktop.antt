-- ===== src/Notify/Desktop.antt =====
-- internal/notify/notifier.go: what a notification looks like, and the two ways to deliver it. The
-- session bus and notify-send are parameters that say whether they took the event.
use better_nm.Prelude.{
  ℕ, String, List, [], ◌∷◌, ◌++◌, Bool, Option, none, some, str_eq, if◌then◌else◌, ◌||◌,
}
use better_nm.Core.Event.{Event, EventType, vpn_up, vpn_down, no_internet, degraded, secret_needed}
use better_nm.Notify.Filter.{Filter, allow}

unfoldable icon_for : EventType → String
icon_for vpn_up = "network-vpn"
icon_for vpn_down = "network-vpn"
icon_for no_internet = "dialog-warning"
icon_for degraded = "dialog-warning"
icon_for secret_needed = "dialog-password"
icon_for _ = "network-wireless"

unfoldable urgency_level : String → ℕ
urgency_level u = if str_eq u "low" then 0 else if str_eq u "critical" then 2 else 1

unfoldable urgency_name : String → String
urgency_name u = if str_eq u "low" || str_eq u "critical" then u else "normal"

-- The arguments of notify-send.
unfoldable pub notify_send_args : Event → List String
unfolding icon_for urgency_name
notify_send_args e =
    ("-a"
      ∷ "bnm"
      ∷ "-u"
      ∷ urgency_name e.urgency
      ∷ "-i"
      ∷ icon_for e.type
      ∷ "-t"
      ∷ "8000"
      ∷ e.title
      ∷ [])
    ++ (if str_eq e.body "" then [] else e.body ∷ [])

-- What happened to an event that `Deliver` was given.
pub data Delivery : Type 0 where
  by_bus by_notify_send failed : Delivery

module _ (bus : Event → Bool) (notify_send : List String → Bool) where
  unfoldable pub deliver : Event → Delivery
  deliver e =
      if bus e then by_bus else if notify_send (notify_send_args e) then by_notify_send else failed

  -- `Notify`: `none` is an event that the policy filtered.
  unfoldable pub notify : Event → ℕ → Filter → Filter × Option Delivery
  unfolding deliver
  notify e now f =
      let (f', passed) = allow e now f in (f', if passed then some (deliver e) else none)

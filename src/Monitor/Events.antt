-- ===== src/Monitor/Events.antt =====
-- internal/monitor/monitor.go: a transition of a key as an event for the user. How a float64 is
-- printed without decimals is package fmt's.
use better_nm.Prelude.{
  String, [], ◌∷◌, Bool, true, false, ◌&&◌, Option, none, some, str_eq, if◌then◌else◌, ◌+s◌,
}
use better_nm.Core.Event.{Event}
use better_nm.Core.Event
use better_nm.Core.Monitor.{BaselineState, learning, ok, degraded, idle, Baseline}
use better_nm.Monitor.Floats.{Floats}
use better_nm.Monitor.Anchor.{Reason, rtt, loss, nothing, is_degraded}
use better_nm.Monitor.Engine.{Transition}
use better_nm.Vpn.WireGuard.Text.{cut}

-- `string(s)`
abbrev state_name : BaselineState → String
state_name learning = "learning"
state_name ok = "ok"
state_name degraded = "degraded"
state_name idle = "idle"
state_name BaselineState.unset = ""

abbrev reason_name : Reason → String
reason_name rtt = "rtt"
reason_name loss = "loss"
reason_name nothing = ""

abbrev is_loss : Reason → Bool
is_loss loss = true
is_loss _ = false

abbrev is_ok : BaselineState → Bool
is_ok ok = true
is_ok _ = false

-- The name behind the first colon, if text stands on both sides of it.
unfoldable pub display_name : String → String
unfolding cut
display_name key = elim (cut 58 key) [
  | none ↦ key
  | some (kind, name) ↦ if str_eq kind "" then key else if str_eq name "" then key else name
]

module _ {F : Type 0} ⦃fl : Floats F⦄ (print : F → String) where
  open fl use {lt, times, of_ℕ}

  unfoldable pub fmt_ms : F → String
  fmt_ms v = if lt v (of_ℕ 0) then "n/a" else print v

  unfoldable pub fmt_pct : F → String
  fmt_pct v = print (times v (of_ℕ 100)) +s " %"

  -- A field of the transition's baseline; that of the zero value is 0.
  abbrev pub field : (Baseline F → F) → Option (Baseline F) → F
  field get none = of_ℕ 0
  field get (some b) = get b

  abbrev pub the_event : Event.EventType → String → String → String → Transition F → Event
  the_event type title body urgency tr =
      let b = tr.baseline in
      record {
        time = tr.at;
        type = type;
        network_key = tr.network_key;
        title = title;
        body = body;
        urgency = urgency;
        extra =
            ("anchor", tr.anchor)
            ∷ (("from", state_name tr.from_state)
                ∷ (("to", state_name tr.to_state)
                    ∷ (("reason", reason_name tr.reason)
                        ∷ (("current_rtt_ms", fmt_ms (field (λ b. b.current_rtt) b))
                            ∷ (("baseline_rtt_ms", fmt_ms (field (λ b. b.baseline_rtt) b))
                                ∷ (("current_loss", fmt_pct (field (λ b. b.current_loss) b))
                                    ∷ (("baseline_loss", fmt_pct (field (λ b. b.baseline_loss) b))
                                        ∷ [])))))));
      }

  abbrev pub degraded_body : Transition F → String
  degraded_body tr =
      let b = tr.baseline in
      let name = display_name tr.network_key in
      if is_loss tr.reason
      then "Packet loss to "
        +s (tr.anchor
            +s (" is "
                +s (fmt_pct (field (λ b. b.current_loss) b)
                    +s (", usually "
                        +s (fmt_pct (field (λ b. b.baseline_loss) b) +s (" on " +s name))))))
      else "Latency to "
        +s (tr.anchor
            +s (" is "
                +s (fmt_ms (field (λ b. b.current_rtt) b)
                    +s (" ms, usually "
                        +s (fmt_ms (field (λ b. b.baseline_rtt) b) +s (" ms on " +s name))))))

  abbrev recovered_body : Transition F → String
  recovered_body tr =
      "Latency to "
      +s (tr.anchor
          +s (" is back to "
              +s (fmt_ms (field (λ b. b.current_rtt) tr.baseline)
                  +s (" ms on " +s display_name tr.network_key))))

  -- `eventFor`
  unfoldable pub event_for : Transition F → Option Event
  unfolding fmt_ms fmt_pct display_name
  event_for tr =
      if is_degraded tr.to_state
      then some (the_event Event.degraded "Network degraded" (degraded_body tr) "normal" tr)
      else if is_degraded tr.from_state && is_ok tr.to_state
      then some (the_event Event.recovered "Network recovered" (recovered_body tr) "low" tr)
      else none

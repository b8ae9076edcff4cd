-- ===== src/Notify/Debounce.antt =====
-- What becomes of a connected event that is held back.
use better_nm.Prelude.{
  ℕ, [], ◌∷◌, true, false, none, some, lookup, ◌≡◌, arith, eq_iff, lookup-erase,
}
use better_nm.Core.Event.{Event, disconnected}
use better_nm.Notify.Policy.{is_enabled, is_muted}
use better_nm.Notify.Filter.{Filter, Held, allow, limited, release}

-- The checks in front of the `switch` let `e` through.
pub record Passes (e : Event) (now : ℕ) (f : Filter) : Type 0 where
  pub on : is_enabled f.policy e.type ≡ true
  pub heard : is_muted f.policy e.network_key ≡ false
  pub free : limited f e now ≡ false

-- A disconnected event that passes the checks while a connected event is held for its Network Key
-- drops both: it is not delivered, nothing is recorded or held for the key any more, and the
-- timer's callback, should it still run, does nothing.
pub flap_silent :
    (e : Event) (now later : ℕ) (f : Filter) (h : Held)
    → e.type ≡ disconnected
    → Passes e now f
    → lookup e.network_key f.held ≡ some h
    → let (f', passed) = allow e now f in
      (passed ≡ false)
      × (f'.last ≡ f.last)
      × (lookup e.network_key f'.held ≡ none)
      × (release e.network_key h.timer later f' ≡ (f', []))
unfolding allow release
flap_silent e now later f h is ok at = ground (
  arith,
  ok.on,
  ok.heard,
  ok.free,
  lookup-erase e.network_key e.network_key f.held,
  eq_iff e.network_key e.network_key,
)

-- A disconnected event that is rate limited cancels nothing: the held connected event stays, and
-- its timer delivers it after the disconnect.
pub limited_flap :
    (e : Event) (now later : ℕ) (f : Filter) (h : Held)
    → e.type ≡ disconnected
    → limited f e now ≡ true
    → f.on_ready ≡ true
    → lookup e.network_key f.held ≡ some h
    → (allow e now f ≡ (f, false))
      × ((release e.network_key h.timer later (allow e now f).0).1 ≡ h.event ∷ [])
unfolding allow release
limited_flap e now later f h is soon ready at = ground arith

-- ===== src/Notify/HeldOnce.antt =====
-- internal/notify/filter.go: the one delivery of a connected event that is held back.
use better_nm.Prelude.{
  ℕ, ◌+◌, ◌<◌, ◌≤◌, String, List, [], ◌∷◌, Bool, true, false, none, some, lookup, insert, All, ◌≡◌,
  inl, inr, refl, ap, ◌∙◌, arith, eq_iff, str_eq, leb, lookup-insert, lookup-erase, Option-cases,
  ◌==◌,
}
use better_nm.Core.Event.{Event, connected}
use better_nm.Notify.Policy.{Policy}
use better_nm.Notify.Filter.{
  Filter, Held, new_filter, set_on_ready, record_at, allow_connected, allow_switch, allow, release,
}
use better_nm.Notify.Trace.{Call, run}
use better_nm.Notify.Timers.{Timers, run-Timers, start-Timers}
use better_nm.Notify.Waiting.{IsIdle, run-Waits}
use better_nm.Notify.Debounce.{Passes}

-- Timers are numbered in order.
abbrev Below : ℕ → String → ℕ → Type 0
Below n k t = t < n

-- None but a key that may is held with that timer.
abbrev Apart : (String → Bool) → ℕ → ℕ → String → ℕ → Type 0
Apart may timer n k t = may k ≡ false → (t == timer) ≡ false

module _ (p : Policy) where
  abbrev Numbered : Filter → Type 0
  Numbered = Timers p 0 Below

  abbrev Without : (String → Bool) → ℕ → Filter → Type 0
  Without may timer = Timers p (timer + 1) (Apart may timer)

  -- The filter, its callback registered, after some calls.
  abbrev pub after_calls : List (ℕ × Call) → Filter
  after_calls calls = (run calls (set_on_ready true (new_filter p)) []).0

  numbered : (calls : List (ℕ × Call)) → Numbered (after_calls calls)
  numbered calls =
      run-Timers p 0 Below (λ n k le. omega arith) (λ n k t lt. omega arith) calls []
        (start-Timers p 0 Below (omega arith))

  module _ (may : String → Bool) (timer : ℕ) where
    new-Apart : (n : ℕ) (k : String) → timer + 1 ≤ n → Apart may timer (n + 1) k n
    new-Apart n k le other = ground arith

    later-Apart : (n : ℕ) (k : String) (t : ℕ) → Apart may timer n k t → Apart may timer (n + 1) k t
    later-Apart n k t h = h

    run-Without :
        (calls : List (ℕ × Call)) (f : Filter)
        → Without may timer f
        → Without may timer (run calls f []).0
    run-Without calls f g =
        run-Timers p (timer + 1) (Apart may timer) new-Apart later-Apart calls [] g

  -- A timer that no event is held with does nothing.
  spent :
      (key : String) (timer now : ℕ) (f : Filter)
      → Without (λ k. false) timer f
      → release key timer now f ≡ (f, [])
  unfolding release
  spent key timer now f g = elim (Option-cases (lookup key f.held)) [
    | inl free ↦ ground (arith, free)
    | inr (h, at) ↦ let stale = g.held key h at refl in ground (arith, at, stale)
  ]

  abbrev arms : Event → Filter → Held
  arms e f = record { event = e; timer = f.next_timer }

  abbrev holding : Event → Filter → Filter
  holding e f = record f {
    held = insert e.network_key (arms e f) f.held;
    next_timer = f.next_timer + 1;
  }

  allow-holding :
      (e : Event) (now : ℕ) (f : Filter)
      → e.type ≡ connected
      → leb f.policy.debounce 0 ≡ false
      → Passes e now f
      → lookup e.network_key f.held ≡ none
      → allow e now f ≡ (holding e f, false)
  unfolding allow allow_switch allow_connected
  allow-holding e now f is on ok free = ground (arith, ok.on, ok.heard, ok.free)

  holding-Without :
      (e : Event) (f : Filter)
      → Numbered f
      → Without (str_eq e.network_key) f.next_timer (holding e f)
  holding-Without e f g = record {
    policy = g.policy;
    ready = g.ready;
    armed = omega arith;
    held = λ k h at other.
        let was : lookup k f.held ≡ some h =
          ground (arith, lookup-insert e.network_key k (arms e f) f.held, other, at) in
        let below = g.held k h was in ground arith;
  }

  -- The callback of the timer delivers the event, and no other one is held with that timer.
  release_held :
      (key : String) (h : Held) (now : ℕ) (f : Filter)
      → lookup key f.held ≡ some h
      → Without (str_eq key) h.timer f
      → ((release key h.timer now f).1 ≡ h.event ∷ [])
        × Without (λ k. false) h.timer (release key h.timer now f).0
  unfolding release record_at
  release_held key h now f at g =
      let mine : (h.timer == h.timer) ≡ true = ground arith in
      rw (at, release)
        (rw mine (
          rw g.ready refl,
          record {
            policy = g.policy;
            ready = g.ready;
            armed = g.armed;
            held = λ k i there any_key.
                g.held k i (ground (arith, lookup-erase key k f.held))
                  (ground (arith, lookup-erase key k f.held));
          },
        ))

-- After any calls of a new filter whose callback is registered, a connected event that passes the
-- checks, with a debounce above 0 and none held for its Network Key, is not delivered by `Allow`;
-- whatever calls come then but a disconnected event of that key, the callback of its timer and a flush,
-- that callback delivers it and nothing else; and whatever calls come after that, another callback of
-- that timer does nothing.
pub held_once :
    (p : Policy) (before between after : List (ℕ × Call)) (e : Event) (now later again : ℕ)
    → e.type ≡ connected
    → leb p.debounce 0 ≡ false
    → Passes e now (after_calls p before)
    → lookup e.network_key (after_calls p before).held ≡ none
    → All (λ c. IsIdle e.network_key (after_calls p before).next_timer c.1) between
    → let f = after_calls p before in
      let (f₁, passed) = allow e now f in
      let f₂ = (run between f₁ []).0 in
      let (f₃, out) = release e.network_key f.next_timer later f₂ in
      let f₄ = (run after f₃ []).0 in
      (passed ≡ false) × (out ≡ e ∷ []) × (release e.network_key f.next_timer again f₄ ≡ (f₄, []))
held_once p before between after e now later again is on ok free idle =
    let f = after_calls p before in
    let g = numbered p before in
    let h = arms p e f in
    let f₁ = holding p e f in
    let f₂ = (run between f₁ []).0 in
    let waits : lookup e.network_key f₂.held ≡ some h =
      run-Waits e.network_key h between f₁ [] idle (
        ground (
          arith,
          lookup-insert e.network_key e.network_key h f.held,
          eq_iff e.network_key e.network_key,
        )) in
    let (out, gone) =
      release_held p e.network_key h later f₂ waits
        (run-Without p (str_eq e.network_key) f.next_timer between f₁ (holding-Without p e f g)) in
    let f₃ = (release e.network_key f.next_timer later f₂).0 in
    rw (allow-holding p e now f is (ap (λ q. leb q.debounce 0) g.policy ∙ on) ok free) (
      refl,
      out,
      spent p e.network_key f.next_timer again (run after f₃ []).0
          (run-Without p (λ k. false) f.next_timer after f₃ gone),
    )

-- ===== src/Daemon/Deriver/Drop.antt =====
-- The primary connection drops: for a moment, or for good.
use better_nm.Prelude.{
  ℕ, ◌+◌, ◌<◌, ◌≤◌, [], ◌∷◌, true, false, none, some, All, ◌≡◌, sym, ◌∙◌, arith,
}
use better_nm.Core.Status.{ActiveConnection, network_key}
use better_nm.Daemon.Deriver.State.{
  View, Deriver, PendingDisconnect, connected_primary, monitor_network,
}
use better_nm.Daemon.Deriver.Events.{disconnected_event}
use better_nm.Daemon.Deriver.Machine.{
  apply, apply-advance, flush, flush_disconnect, flush_no_internet,
}
use better_nm.Daemon.Deriver.Follow.{advance-initialized, flush-initialized}
use better_nm.Daemon.Deriver.Roam.{IsQuiet, apply-dropped, apply-returned, flush-Keeps}

apply-initialized :
    (v : View) (now : ℕ) (d : Deriver) → d.initialized ≡ true → (apply v now d).0.initialized ≡ true
apply-initialized v now d ready = rw (apply-advance v now d ready) (
    advance-initialized v (connected_primary v.status)
      (network_key (connected_primary v.status) v.profiles) now d
    ∙ ready)

module _ (d : Deriver) (p : ActiveConnection) (down : View) (gone later : ℕ)
    (ready : d.initialized ≡ true) (was : d.primary ≡ some p)
    (without : connected_primary down.status ≡ none) (holds : 0 < d.debounce) where
  -- A roam: the primary goes away, a timer call may come before the debounce has run, and a primary
  -- of the same Network Key comes up. None of the three steps emits a connected or a disconnected
  -- event, the probe engine stays where it was, and the new primary is taken.
  pub roam_silent :
      (up : View) (back : ℕ) (cur : ActiveConnection)
      → later < gone + d.debounce
      → connected_primary up.status ≡ some cur
      → network_key (some cur) up.profiles ≡ d.primary_key
      → let r₁ = apply down gone d in
        let r₂ = flush later r₁.0 in
        let r₃ = apply up back r₂.0 in
        All IsQuiet r₁.1
        × All IsQuiet r₂.1
        × All IsQuiet r₃.1
        × (monitor_network r₃.0 ≡ monitor_network d)
        × (r₃.0.primary ≡ some cur)
  unfolding monitor_network
  roam_silent up back cur early with_primary same =
      let r₁ = apply down gone d in
      let k₁ = apply-dropped down gone d p ready was without holds in
      let k₂ = flush-Keeps later r₁.0 (λ pd at. ground (arith, k₁.waiting, k₁.debounce)) in
      let r₂ = flush later r₁.0 in
      let k₃ =
        apply-returned up back r₂.0 cur _
          (flush-initialized later r₁.0 ∙ apply-initialized down gone d ready)
          (k₂.primary ∙ k₁.primary) (k₂.waiting ∙ k₁.waiting) with_primary (sym same) in
      (k₁.quiet, k₂.quiet, k₃.quiet, k₃.network ∙ (k₂.network ∙ k₁.network), k₃.primary)

  -- A drop that lasts: the view without a primary emits no connected and no disconnected event, and
  -- the events of the flush at or after the debounce are exactly the disconnect of the network that
  -- was left. The probe engine then is on no network, no no-internet is outstanding and no disconnect
  -- waits any more.
  pub drop_announced :
      gone + d.debounce ≤ later
      → let r₁ = apply down gone d in
        let r₂ = flush later r₁.0 in
        let left : PendingDisconnect = record {
          key = d.primary_key;
          name = d.primary_name;
          uuid = p.profile_uuid;
          at = gone;
        } in
        All IsQuiet r₁.1
        × (r₂.1 ≡ disconnected_event left later ∷ [])
        × (monitor_network r₂.0 ≡ ("", ""))
        × (r₂.0.no_internet ≡ false)
        × (r₂.0.pending_disc ≡ none)
  unfolding flush flush_disconnect flush_no_internet monitor_network
  drop_announced due =
      let k = apply-dropped down gone d p ready was without holds in
      (
        k.quiet,
        ground (arith, k.waiting, k.primary, k.debounce),
        ground (arith, k.waiting, k.primary, k.debounce),
        ground (arith, k.waiting, k.primary, k.debounce),
        ground (arith, k.waiting, k.primary, k.debounce),
      )

-- ===== src/Daemon/Loop/Sync.antt =====
-- internal/daemon/daemon.go: the network that the monitor was told of last, and the deriver's.
use better_nm.Prelude.{
  String, List, [], ◌∷◌, ◌++◌, Bool, true, false, not, ◌&&◌, ◌||◌, Option, none, some, any,
  if◌then◌else◌, ◌≡◌, inl, inr, refl, sym, ap, ◌∙◌, arith, eq_iff, Bool-cases,
}
use better_nm.Core.Event.{Event}
use better_nm.Daemon.Deriver.State.{Deriver, monitor_network}
use better_nm.Daemon.Deriver.Machine.{apply, flush}
use better_nm.Daemon.Loop.{
  Daemon, Wiring, refresh_nm, sync_monitor_network, emit_events, derive, view, publish_changes,
  same_net,
}
use better_nm.Daemon.Loop.Handlers.{needs_wifi, on_nm_changes, on_timer, refresh}
use better_nm.Daemon.Loop.Life.{
  Call, nm_changed, vpn_changed, monitor_changed, monitor_told, timer_fired, refreshed,
  secret_asked, secret_settled, notified, handle, SameBut, Emits, emit_events-Emits,
  refresh_nm-SameBut, publish_changes-SameBut,
}
use better_nm.Daemon.Loop.Steps.{all_read, all_read-SameBut}

abbrev pub last_of {ℓ} : {A : Type ℓ} → List A → Option A
last_of [] = none
last_of (x ∷ []) = some x
last_of (_ ∷ y ∷ ys) = last_of (y ∷ ys)

last_of-snoc {ℓ} : {A : Type ℓ} (xs : List A) (x : A) → last_of (xs ++ (x ∷ [])) ≡ some x
last_of-snoc [] x = refl
last_of-snoc (y ∷ []) x = refl
last_of-snoc (y ∷ z ∷ zs) x = last_of-snoc (z ∷ zs) x

-- The daemon remembers what it told the monitor last.
pub record IsMindful (wiring : Wiring) (d : Daemon) : Type 0 where
  pub wired : d.wiring ≡ wiring
  pub last : last_of d.monitor_calls ≡ (if d.net_set then some d.last_net else none)

-- The monitor was told of the deriver's network last.
pub record IsSynced (wiring : Wiring) (d : Daemon) : Type 0 where
  pub mindful : IsMindful wiring d
  pub synced : wiring.monitor ≡ true → last_of d.monitor_calls ≡ some (monitor_network d.der)

same_net-eq : (p q : String × String) → same_net p q ≡ true → p ≡ q
same_net-eq p q h =
    let fst : p.0 ≡ q.0 = ground (arith, eq_iff p.0 q.0) in
    let snd : p.1 ≡ q.1 = ground (arith, eq_iff p.1 q.1) in
    ap (λ x. (x, p.1)) fst ∙ ap (λ y. (q.0, y)) snd

-- A daemon that tells the monitor the same.
pub record Alike (d d' : Daemon) : Type 0 where
  wiring : d'.wiring ≡ d.wiring
  net_set : d'.net_set ≡ d.net_set
  last_net : d'.last_net ≡ d.last_net
  monitor_calls : d'.monitor_calls ≡ d.monitor_calls

pub SameBut-Alike : (d d' : Daemon) → SameBut d d' → Alike d d'
SameBut-Alike d d' s = record {
  wiring = s.wiring;
  net_set = s.net_set;
  last_net = s.last_net;
  monitor_calls = s.monitor_calls;
}

Emits-Alike : (es : List Event) (d d' : Daemon) → Emits es d d' → Alike d d'
Emits-Alike es d d' e = record {
  wiring = e.wiring;
  net_set = e.net_set;
  last_net = e.last_net;
  monitor_calls = e.monitor_calls;
}

pub Alike-IsMindful :
    (wiring : Wiring) (d d' : Daemon) → Alike d d' → IsMindful wiring d → IsMindful wiring d'
Alike-IsMindful wiring d d' s m = record {
  wired = s.wiring ∙ m.wired;
  last =
      ap last_of s.monitor_calls
      ∙ (m.last
          ∙ (ap (λ b. if b then some d.last_net else none) (sym s.net_set)
              ∙ ap (λ net. if d'.net_set then some net else none) (sym s.last_net)));
}

-- The deriver moves, and nothing else.
pub derived-IsMindful :
    (wiring : Wiring) (d d₁ : Daemon) (der : Deriver)
    → SameBut d d₁
    → IsMindful wiring d
    → IsMindful wiring (record d₁ { der = der })
derived-IsMindful wiring d d₁ der s m =
    let m₁ = Alike-IsMindful wiring d d₁ (SameBut-Alike d d₁ s) m in
    record { wired = m₁.wired; last = m₁.last }

published-IsSynced :
    (wiring : Wiring) (d d' : Daemon) → SameBut d d' → IsSynced wiring d → IsSynced wiring d'
published-IsSynced wiring d d' s i = record {
  mindful = Alike-IsMindful wiring d d' (SameBut-Alike d d' s) i.mindful;
  synced = λ on.
      ap last_of s.monitor_calls ∙ (i.synced on ∙ ap (λ x. some (monitor_network x)) (sym s.der));
}

pub emitted-IsMindful :
    (wiring : Wiring) (es : List Event) (d : Daemon)
    → IsMindful wiring d
    → IsMindful wiring (emit_events es d)
emitted-IsMindful wiring es d m =
    Alike-IsMindful wiring d _ (Emits-Alike es d _ (emit_events-Emits es d)) m

emitted-IsSynced :
    (wiring : Wiring) (es : List Event) (d : Daemon)
    → IsSynced wiring d
    → IsSynced wiring (emit_events es d)
emitted-IsSynced wiring es d i =
    let e = emit_events-Emits es d in
    record {
      mindful = emitted-IsMindful wiring es d i.mindful;
      synced = λ on.
          ap last_of e.monitor_calls
          ∙ (i.synced on ∙ ap (λ x. some (monitor_network x)) (sym e.der));
    }

sync-IsSynced :
    (wiring : Wiring) (d : Daemon) → IsMindful wiring d → IsSynced wiring (sync_monitor_network d)
unfolding sync_monitor_network
sync-IsSynced wiring d m =
    let net = monitor_network d.der in
    elim (Bool-cases (not d.wiring.monitor || (d.net_set && same_net d.last_net net))) [
      | inl same ↦ rw same (record {
        mindful = m;
        synced = λ on.
            let wired : d.wiring.monitor ≡ true = ap (λ w. w.monitor) m.wired ∙ on in
            let set : d.net_set ≡ true = ground arith in
            m.last
            ∙ (ap (λ b. if b then some d.last_net else none) set
                ∙ ap (λ n. some n) (same_net-eq d.last_net net (ground arith)));
      })
      | inr news ↦ rw news (record {
        mindful = record { wired = m.wired; last = last_of-snoc d.monitor_calls net };
        synced = λ on. last_of-snoc d.monitor_calls net;
      })
    ]

-- After these the monitor was told.
abbrev pub syncs : Call → Bool
syncs (nm_changed changes w now) = true
syncs (timer_fired now) = true
syncs (refreshed w vpns key now) = true
syncs _ = false

pub syncing :
    (wiring : Wiring) (c : Call) (d : Daemon)
    → syncs c ≡ true
    → IsMindful wiring d
    → IsSynced wiring (handle c d)
unfolding handle on_nm_changes on_timer refresh derive all_read
syncing wiring (nm_changed changes w now) d h m =
    let d₁ = refresh_nm (any needs_wifi changes) w now d in
    let (der, es) = apply (view d₁) now d₁.der in
    let d₂ = sync_monitor_network (record d₁ { der = der }) in
    emitted-IsSynced wiring es (publish_changes changes d₂) (
      published-IsSynced wiring d₂ _ (publish_changes-SameBut changes d₂) (
        sync-IsSynced wiring (record d₁ { der = der })
          (derived-IsMindful wiring d d₁ der (refresh_nm-SameBut (any needs_wifi changes) w now d)
            m)))
syncing wiring (timer_fired now) d h m =
    let (der, es) = flush now d.der in
    emitted-IsSynced wiring es (sync_monitor_network (record d { der = der }))
      (sync-IsSynced wiring (record d { der = der }) (record { wired = m.wired; last = m.last }))
syncing wiring (refreshed w vpns key now) d h m =
    let d₁ = all_read w vpns key now d in
    let (der, es) = apply (view d₁) now d₁.der in
    let i = emitted-IsSynced wiring es (sync_monitor_network (record d₁ { der = der })) (
      sync-IsSynced wiring (record d₁ { der = der })
        (derived-IsMindful wiring d d₁ der (all_read-SameBut w vpns key now d) m)) in
    record {
      mindful = record { wired = i.mindful.wired; last = i.mindful.last };
      synced = i.synced;
    }
syncing wiring (vpn_changed changes vpns now) d h m = absurd (ground (arith, h))
syncing wiring (monitor_changed c key now) d h m = absurd (ground (arith, h))
syncing wiring (monitor_told e key now) d h m = absurd (ground (arith, h))
syncing wiring (secret_asked req now) d h m = absurd (ground (arith, h))
syncing wiring (secret_settled id outcome now) d h m = absurd (ground (arith, h))
syncing wiring notified d h m = absurd (ground (arith, h))

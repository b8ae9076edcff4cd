-- ===== src/Daemon/Loop/Replayed.antt =====
-- internal/daemon/daemon.go and derive.go together: what the history that the daemon hands to the
-- store tells one who replays it.
use mathlib.Core.Path.{subst}
use better_nm.Prelude.{
  ℕ, ◌≤◌, List, ◌++◌, ◌&&◌, ◌||◌, Bool-cases, length, not, ◌≡◌, inl, inr, refl, sym, ap, ◌∙◌,
}
use better_nm.Core.Event.{Event}
use better_nm.Daemon.Deriver.State.{Deriver, monitor_network}
use better_nm.Daemon.Deriver.Replay.{Follows}
use better_nm.Daemon.Deriver.Trace.{Input, step, Ready, step-Follows}
use better_nm.Daemon.Loop.{Daemon, sync_monitor_network, emit_events, notify_buffer, same_net}
use better_nm.Daemon.Loop.Life.{SameBut, emit_events-Emits}

-- What a handler adds to the history, and that a replay of it follows the deriver.
pub record Told (d d' : Daemon) : Type 0 where
  pub news : List Event
  pub history : d'.history ≡ d.history ++ news
  pub follows : Follows d.der (d'.der, news)
  pub ready : Ready d'.der
  pub bounded : length d.notify_ch ≤ notify_buffer → length d'.notify_ch ≤ notify_buffer

-- Where the deriver goes from `d` to `d'`, which differ in the deriver and in what the monitor was
-- told; the history and the queue of the notifier stay.
pub record Moves (d d' : Daemon) (der : Deriver) : Type 0 where
  pub at : d'.der ≡ der
  pub history : d'.history ≡ d.history
  pub notify_ch : d'.notify_ch ≡ d.notify_ch

pub quiet : (d d' : Daemon) → SameBut d d' → Moves d d' d.der
quiet d d' s = record { at = s.der; history = s.history; notify_ch = s.notify_ch }

pub Moves-shown :
    (d d' d'' : Daemon) (der : Deriver) → Moves d d' der → SameBut d' d'' → Moves d d'' der
Moves-shown d d' d'' der m s = record {
  at = s.der ∙ m.at;
  history = s.history ∙ m.history;
  notify_ch = s.notify_ch ∙ m.notify_ch;
}

pub sync-Moves :
    (d d' : Daemon) (der : Deriver) → Moves d d' der → Moves d (sync_monitor_network d') der
unfolding sync_monitor_network
sync-Moves d d' der m =
    elim (Bool-cases
      (not d'.wiring.monitor || (d'.net_set && same_net d'.last_net (monitor_network d'.der)))) [
        | inl skipped ↦ rw skipped m
        | inr told ↦ rw told (record { at = m.at; history = m.history; notify_ch = m.notify_ch })
      ]

-- The events are emitted from a state to which the deriver moved with them.
pub emitted :
    (d d' : Daemon) (der : Deriver) (es : List Event)
    → Moves d d' der
    → Follows d.der (der, es)
    → Ready der
    → Told d (emit_events es d')
emitted d d' der es m f r =
    let e = emit_events-Emits es d' in
    record {
      news = es;
      history = e.history ∙ ap (λ h. h ++ es) m.history;
      follows = subst (λ x. Follows d.der (x, es)) (sym (e.der ∙ m.at)) f;
      ready = subst Ready (sym (e.der ∙ m.at)) r;
      bounded = λ h. e.bounded (subst (λ q. length q ≤ notify_buffer) (sym m.notify_ch) h);
    }

-- The deriver takes an input after the snapshot was refreshed.
pub stepped :
    (i : Input) (now : ℕ) (d d₁ : Daemon)
    → Ready d.der
    → SameBut d d₁
    → Follows d.der (step i now d₁.der) × Ready (step i now d₁.der).0
stepped i now d d₁ r s =
    subst (λ x. Follows d.der (step i now x) × Ready (step i now x).0) (sym s.der)
      (step-Follows i now d.der r)

pub moved : (d d₁ : Daemon) (der : Deriver) → SameBut d d₁ → Moves d (record d₁ { der = der }) der
moved d d₁ der s = record { at = refl; history = s.history; notify_ch = s.notify_ch }

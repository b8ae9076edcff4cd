-- ===== src/Daemon/Loop/Order.antt =====
-- internal/daemon/daemon.go: the handlers that derive events hold a lock while they derive and emit
-- after its release, and a Refresh of a request runs beside the loop. Here a derivation and the
-- emission of a batch are steps of their own.
use mathlib.Core.Path.{subst}
use better_nm.Prelude.{
  ℕ, String, List, [], ◌∷◌, ◌++◌, any, Option, some, append-nil, append_assoc, ◌≡◌, refl, sym, ap,
  ◌∙◌,
}
use better_nm.Core.Event.{Event}
use better_nm.Core.Vpn.{Vpn}
use better_nm.Daemon.Bus.{ChangeKind, vpn}
use better_nm.Daemon.Deriver.State.{Deriver}
use better_nm.Daemon.Deriver.Machine.{flush}
use better_nm.Daemon.Deriver.Replay.{Follows, Follows-append}
use better_nm.Daemon.Deriver.Trace.{see, tick, step, Ready, step-Follows}
use better_nm.Daemon.Loop.{
  Daemon, NmAnswers, Wiring, new_daemon, refresh_nm, refresh_vpn, sync_monitor_network, emit_events,
  derive, view, publish_changes,
}
use better_nm.Daemon.Loop.Handlers.{
  Change, needs_wifi, with_kind, initial_read, on_nm_changes, on_vpn_changes, on_timer,
}
use better_nm.Daemon.Loop.Life.{
  refresh_nm-SameBut, refresh_vpn-SameBut, publish_changes-SameBut, emit_events-Emits,
}
use better_nm.Daemon.Loop.Replayed.{Moves, Moves-shown, sync-Moves, stepped, moved}
use better_nm.Daemon.Loop.Steps.{all_read, all_read-SameBut}
use better_nm.Daemon.Loop.History.{IsStarted, initial_read-Started}

pub data Derivation : Type 0 where
  by_nm : List (ChangeKind × String) → NmAnswers → ℕ → Derivation
  by_vpn : List Change → Option (List Vpn) → ℕ → Derivation
  by_timer : ℕ → Derivation
  by_refresh : NmAnswers → Option (List Vpn) → String → ℕ → Derivation

-- A handler up to its emission.
unfoldable pub locked : Derivation → Daemon → Daemon × List Event
unfolding refresh_nm refresh_vpn derive sync_monitor_network publish_changes flush
locked (by_nm changes w now) d =
    let (d', es) = derive now (refresh_nm (any needs_wifi changes) w now d) in
    (publish_changes changes (sync_monitor_network d'), es)
locked (by_vpn changes vpns now) d =
    let (d', es) = derive now (refresh_vpn vpns now d) in
    (publish_changes (with_kind vpn changes) d', es)
locked (by_timer now) d =
    let (der', es) = flush now d.der in (sync_monitor_network (record d { der = der' }), es)
locked (by_refresh w vpns key now) d =
    let (d', es) = derive now (all_read w vpns key now d) in (sync_monitor_network d', es)

-- The handlers emit what they derived.
locked_lem :
    (d : Daemon) (changes : List (ChangeKind × String)) (hints : List Change) (w : NmAnswers)
    (vpns : Option (List Vpn)) (now : ℕ)
    → let a = locked (by_nm changes w now) d in
      let b = locked (by_vpn hints vpns now) d in
      let c = locked (by_timer now) d in
      (on_nm_changes changes w now d ≡ emit_events a.1 a.0)
      × (on_vpn_changes hints vpns now d ≡ emit_events b.1 b.0)
      × (on_timer now d ≡ emit_events c.1 c.0)
unfolding locked on_nm_changes on_vpn_changes on_timer
locked_lem d changes hints w vpns now = (refl, refl, refl)

-- The deriver moved with the batch, and nothing was handed to the store yet.
record Derives (d : Daemon) (r : Daemon × List Event) : Type 0 where
  history : r.0.history ≡ d.history
  follows : Follows d.der (r.0.der, r.1)
  ready : Ready r.0.der

Moves-Derives :
    (d d' : Daemon) (der : Deriver) (es : List Event)
    → Moves d d' der
    → Follows d.der (der, es) × Ready der
    → Derives d (d', es)
Moves-Derives d d' der es m (f, r) = record {
  history = m.history;
  follows = subst (λ x. Follows d.der (x, es)) (sym m.at) f;
  ready = subst Ready (sym m.at) r;
}

locked-Derives : (x : Derivation) (d : Daemon) → Ready d.der → Derives d (locked x d)
unfolding locked derive step
locked-Derives (by_nm changes w now) d r =
    let d₁ = refresh_nm (any needs_wifi changes) w now d in
    let s = refresh_nm-SameBut (any needs_wifi changes) w now d in
    let (der, es) = step (see (view d₁)) now d₁.der in
    let d₂ = sync_monitor_network (record d₁ { der = der }) in
    Moves-Derives d (publish_changes changes d₂) der es
      (Moves-shown d d₂ _ der (sync-Moves d (record d₁ { der = der }) der (moved d d₁ der s))
        (publish_changes-SameBut changes d₂))
      (stepped (see (view d₁)) now d d₁ r s)
locked-Derives (by_vpn changes vpns now) d r =
    let d₁ = refresh_vpn vpns now d in
    let s = refresh_vpn-SameBut vpns now d in
    let (der, es) = step (see (view d₁)) now d₁.der in
    let d₂ : Daemon = record d₁ { der = der } in
    Moves-Derives d (publish_changes (with_kind vpn changes) d₂) der es
      (Moves-shown d d₂ _ der (moved d d₁ der s)
        (publish_changes-SameBut (with_kind vpn changes) d₂))
      (stepped (see (view d₁)) now d d₁ r s)
locked-Derives (by_timer now) d r =
    let (der, es) = step tick now d.der in
    Moves-Derives d _ der es
      (sync-Moves d (record d { der = der }) der
        (record { at = refl; history = refl; notify_ch = refl }))
      (step-Follows tick now d.der r)
locked-Derives (by_refresh w vpns key now) d r =
    let d₁ = all_read w vpns key now d in
    let s = all_read-SameBut w vpns key now d in
    let (der, es) = step (see (view d₁)) now d₁.der in
    Moves-Derives d _ der es (sync-Moves d (record d₁ { der = der }) der (moved d d₁ der s))
      (stepped (see (view d₁)) now d d₁ r s)

-- The batches that were derived and not emitted yet, oldest first.
pub record Racing : Type 0 where
  pub daemon : Daemon
  pub outbox : List (List Event)

pub data Act : Type 0 where
  derives : Derivation → Act
  emits : Act  -- the oldest batch

abbrev emit_first : List (List Event) → Daemon → Racing
emit_first [] d = record { daemon = d; outbox = [] }
emit_first (es ∷ rest) d = record { daemon = emit_events es d; outbox = rest }

unfoldable pub act : Act → Racing → Racing
unfolding locked
act (derives x) r =
    let (d, es) = locked x r.daemon in record { daemon = d; outbox = r.outbox ++ (es ∷ []) }
act emits r = emit_first r.outbox r.daemon

unfoldable pub race : List Act → Racing → Racing
unfolding act
race [] r = r
race (a ∷ acts) r = race acts (act a r)

abbrev pub joined : List (List Event) → List Event
joined [] = []
joined (es ∷ rest) = es ++ joined rest

joined-snoc :
    (out : List (List Event)) (es : List Event) → joined (out ++ (es ∷ [])) ≡ joined out ++ es
joined-snoc [] es = append-nil es
joined-snoc (first ∷ out) es =
    ap (λ x. first ++ x) (joined-snoc out es) ∙ sym (append_assoc first (joined out) es)

-- What was added to the history, with what waits for its emission behind it, replays to the deriver.
pub record Announced (d : Daemon) (r : Racing) : Type 0 where
  pub news : List Event
  pub history : r.daemon.history ≡ d.history ++ news
  pub follows : Follows d.der (r.daemon.der, news ++ joined r.outbox)

derived-Announced :
    (d : Daemon) (x : Derivation) (r : Racing)
    → Announced d r
    → Ready r.daemon.der
    → Announced d (act (derives x) r) × Ready (act (derives x) r).daemon.der
unfolding act
derived-Announced d x r a ready =
    let k = locked-Derives x r.daemon ready in
    let (d', es) = locked x r.daemon in
    let whole : (a.news ++ joined r.outbox) ++ es ≡ a.news ++ joined (r.outbox ++ (es ∷ [])) =
      append_assoc a.news (joined r.outbox) es
      ∙ ap (λ l. a.news ++ l) (sym (joined-snoc r.outbox es)) in
    (
      record {
        news = a.news;
        history = k.history ∙ a.history;
        follows =
            subst (λ l. Follows d.der (d'.der, l)) whole
              (Follows-append d.der (r.daemon.der, a.news ++ joined r.outbox) (d'.der, es) a.follows
                k.follows);
      },
      k.ready,
    )

emitted-Announced :
    (d d' : Daemon) (out : List (List Event))
    → Announced d (record { daemon = d'; outbox = out })
    → Ready d'.der
    → Announced d (emit_first out d') × Ready (emit_first out d').daemon.der
emitted-Announced d d' [] a ready = (a, ready)
emitted-Announced d d' (es ∷ rest) a ready =
    let e = emit_events-Emits es d' in
    (
      record {
        news = a.news ++ es;
        history = e.history ∙ (ap (λ h. h ++ es) a.history ∙ append_assoc d.history a.news es);
        follows =
            subst (λ x. Follows d.der (x, (a.news ++ es) ++ joined rest)) (sym e.der)
              (subst (λ l. Follows d.der (d'.der, l)) (sym (append_assoc a.news es (joined rest)))
                a.follows);
      },
      subst Ready (sym e.der) ready,
    )

race-Announced :
    (d : Daemon) (acts : List Act) (r : Racing)
    → Announced d r
    → Ready r.daemon.der
    → Announced d (race acts r)
unfolding race act
race-Announced d [] r a ready = a
race-Announced d (derives x ∷ acts) r a ready =
    let (a', ready') = derived-Announced d x r a ready in
    race-Announced d acts (act (derives x) r) a' ready'
race-Announced d (emits ∷ acts) r a ready =
    let (a', ready') = emitted-Announced d r.daemon r.outbox a ready in
    race-Announced d acts (emit_first r.outbox r.daemon) a' ready'

-- Also if derivations and emissions interleave, as they do when a request refreshes beside the loop:
-- from a successful initial read on, as long as the batches are emitted in the order in which they
-- were derived, one who replays what was added to the history, and then what still waits for its
-- emission, ends with the deriver's monitored network and outstanding no-internet, and knows of every
-- VPN whether it is up.
pub ordered-Announced :
    (wiring : Wiring) (debounce grace : ℕ) (w : NmAnswers) (vpns : Option (List Vpn)) (key : String)
    (now : ℕ) (d : Daemon)
    → initial_read w vpns key now (new_daemon wiring debounce grace) ≡ some d
    → (acts : List Act) → Announced d (race acts (record { daemon = d; outbox = [] }))
ordered-Announced wiring debounce grace w vpns key now d h acts =
    let s = subst IsStarted h (initial_read-Started wiring debounce grace w vpns key now) in
    race-Announced d acts (record { daemon = d; outbox = [] })
      (record {
        news = [];
        history = sym (append-nil d.history);
        follows = (refl, refl, λ id. refl);
      })
      s.ready

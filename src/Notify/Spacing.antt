-- ===== src/Notify/Spacing.antt =====
-- Notifications of one type for one Network Key are at least `RateLimit` apart, held ones included.
use better_nm.Prelude.{
  ℕ, String, List, [], ◌∷◌, Bool, true, false, some, Assoc, lookup, erase, Distinct, Within, ◌≡◌,
  inl, inr, refl, ap, arith, Distinct-Within, Within-erase, if◌then◌else◌, Bool-cases, Option-cases,
  ◌==◌,
}
use better_nm.Core.Event.{Event}
use better_nm.Notify.Policy.{Policy}
use better_nm.Notify.Filter.{
  Filter, Held, new_filter, set_on_ready, record_at, is_secret_needed, allow, flush_held, flush,
  release,
}
use better_nm.Notify.Trace.{
  Call, allow_call, release_call, flush_call, call, Log, log_all, run, IsTimed,
}
use better_nm.Notify.Spaced.{
  Good-record, Spaced, Good, Good-later, Good-erase, logged, fresh_of_erase,
}
use better_nm.Notify.Arrivals.{allow-Good}

module _ (p : Policy) where
  -- The timer callback and one round of the flush: a held event is recorded and leaves the map.
  release_held-Good :
      {f : Filter} {log : Log} {now : ℕ} (b : Bool) (key : String) (h : Held)
      → lookup key f.held ≡ some h
      → Good p f log now
      → Good p
          (record_at h.event now (record f { held = erase key f.held }))
          (logged p b now h.event log)
          now
  release_held-Good {f} {log} {now} b key h at g =
      let w = g.waits key h at in
      Good-record p h.event now b (ap is_secret_needed w.type) w.clear (fresh_of_erase p key h at g)
        (Good-erase p key g)

  log_all-ready :
      (b : Bool) (now : ℕ) (e : Event) (log : Log)
      → log_all now (if b then e ∷ [] else []) log ≡ logged p b now e log
  log_all-ready true now e log = refl
  log_all-ready false now e log = refl

  release-Good :
      {f : Filter} {log : Log} (now : ℕ) (key : String) (timer : ℕ)
      → Good p f log now
      → let (f', out) = release key timer now f in Good p f' (log_all now out log) now
  unfolding release
  release-Good {f} {log} now key timer g = elim (Option-cases (lookup key f.held)) [
    | inl free ↦ rw (free, release) g
    | inr (h, at) ↦
        rw (at, release)
          (elim (Bool-cases (h.timer == timer)) [
            | inr stale ↦ rw stale g
            | inl mine ↦
                rw (mine, log_all-ready f.on_ready now h.event log)
                  (release_held-Good f.on_ready key h at g)
          ])
  ]

  flush_held-Good :
      (b : Bool) (m : Assoc Held) {f : Filter} {log : Log} (now : ℕ)
      → Distinct m
      → Within m f.held
      → Good p f log now
      → let (f', ready) = flush_held m now f in
        Good p f' (log_all now (if b then ready else []) log) now
  unfolding flush_held
  flush_held-Good true [] now d w g = g
  flush_held-Good false [] now d w g = g
  flush_held-Good true ((key, h) ∷ m) {f} now d w g =
      flush_held-Good true m now d.1 (Within-erase m f.held key d.0 w.1)
        (release_held-Good true key h w.0 g)
  flush_held-Good false ((key, h) ∷ m) {f} now d w g =
      flush_held-Good false m now d.1 (Within-erase m f.held key d.0 w.1)
        (release_held-Good false key h w.0 g)

  flush-Good :
      {f : Filter} {log : Log} (now : ℕ)
      → Good p f log now
      → let (f', out) = flush now f in Good p f' (log_all now out log) now
  unfolding flush
  flush-Good {f} now g =
      flush_held-Good (flush_held f.held now f).0.on_ready f.held now g.distinct
        (Distinct-Within f.held g.distinct) g

  call-Good :
      {f : Filter} {log : Log} (now : ℕ) (c : Call)
      → Good p f log now
      → let (f', out) = call c now f in Good p f' (log_all now out log) now
  unfolding call
  call-Good {f} {log} now (allow_call e) g = elim (Bool-cases (allow e now f).1) [
    | inl passed ↦ rw passed (rw passed at (allow-Good p e now g))
    | inr refused ↦ rw refused (rw refused at (allow-Good p e now g))
  ]
  call-Good now (release_call key timer) g = release-Good now key timer g
  call-Good now flush_call g = flush-Good now g

  run-Good :
      (calls : List (ℕ × Call)) {f : Filter} {log : Log} (start : ℕ)
      → IsTimed start calls
      → Good p f log start
      → Spaced p.rate_limit (run calls f log).1
  unfolding run
  run-Good [] start t g = g.spaced
  run-Good ((now, c) ∷ calls) start t g =
      run-Good calls now t.1 (call-Good now c (Good-later p start now t.0 g))

  -- However the calls of `Allow`, the timer callbacks (late or stale ones too) and the flushes are
  -- interleaved, on a clock that does not run backwards: two notifications of the same type for the
  -- same Network Key are at least `RateLimit` apart, but for prompts.
  pub run-Spaced :
      (ready : Bool) (calls : List (ℕ × Call))
      → IsTimed 0 calls
      → Spaced p.rate_limit (run calls (set_on_ready ready (new_filter p)) []).1
  unfolding new_filter set_on_ready lookup
  run-Spaced ready calls t = run-Good calls 0 t (record {
    policy = refl;
    distinct = tt;
    covers = tt;
    past = λ k l e. absurd (ground arith);
    waits = λ k h e. absurd (ground arith);
    spaced = tt;
  })

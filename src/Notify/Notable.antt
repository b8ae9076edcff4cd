-- ===== src/Notify/Notable.antt =====
-- Only what the policy finds notable reaches the user, whatever the order of the calls.
use better_nm.Prelude.{
  ℕ, String, List, [], ◌∷◌, Bool, true, false, some, Assoc, lookup, insert, erase, Distinct, Within,
  All, ◌≡◌, ◌⊎◌, inl, inr, refl, sym, ap, ◌∙◌, arith, leb, lookup-insert, lookup-erase,
  insert-Distinct, erase-Distinct, Distinct-Within, Within-erase, if◌then◌else◌, Bool-cases,
  Option-cases, ◌==◌,
}
use better_nm.Core.Event.{Event, EventType, connected, disconnected}
use better_nm.Notify.Policy.{Policy, is_enabled, is_muted}
use better_nm.Notify.Filter.{
  Filter, Held, new_filter, set_on_ready, record_at, is_secret_needed, limited, allow_disconnected,
  allow_switch, allow, flush_held, flush, release,
}
use better_nm.Notify.Trace.{Call, allow_call, release_call, flush_call, call, Log, log_all, run}

abbrev pub IsNotable : Policy → Event → Type 0
IsNotable p e =
    (is_enabled p e.type ≡ true)
    × ((is_secret_needed e.type ≡ true) ⊎ (is_muted p e.network_key ≡ false))

All-if : (P : Event → Type 0) (es : List Event) (b : Bool) → All P es → All P (if b then es else [])
All-if P es true h = h
All-if P es false h = tt

module _ (p : Policy) where
  record Kept (f : Filter) : Type 0 where
    policy : f.policy ≡ p
    distinct : Distinct f.held
    held : (k : String) (h : Held) → lookup k f.held ≡ some h → IsNotable p h.event

  Kept-record : {f : Filter} (e : Event) (now : ℕ) → Kept f → Kept (record_at e now f)
  unfolding record_at
  Kept-record e now g = record { policy = g.policy; distinct = g.distinct; held = g.held }

  Kept-erase : {f : Filter} (key : String) → Kept f → Kept (record f { held = erase key f.held })
  Kept-erase {f} key g = record {
    policy = g.policy;
    distinct = erase-Distinct key f.held g.distinct;
    held = λ k h e. g.held k h (ground (arith, lookup-erase key k f.held));
  }

  Kept-hold :
      {f : Filter} (e : Event) (timer next : ℕ)
      → IsNotable p e
      → Kept f
      → Kept (record f {
        held = insert e.network_key (record { event = e; timer = timer }) f.held;
        next_timer = next;
      })
  Kept-hold {f} e timer next n g =
      let new : Held = record { event = e; timer = timer } in
      record {
        policy = g.policy;
        distinct = insert-Distinct e.network_key new f.held g.distinct;
        held = λ k h at. ground (arith, lookup-insert e.network_key k new f.held, g.held k h);
      }

  switch-Kept :
      {f : Filter} (t : EventType) (e : Event) (now : ℕ)
      → IsNotable p e
      → Kept f
      → Kept (allow_switch t e now f).0
  unfolding allow_switch
  switch-Kept {f} connected e now n g = elim (Bool-cases (leb f.policy.debounce 0)) [
    | inl off ↦ rw off (Kept-record e now g)
    | inr on ↦ rw on (elim (Option-cases (lookup e.network_key f.held)) [
      | inl free ↦ rw (free, allow_switch) (Kept-hold e f.next_timer _ n g)
      | inr (h, at) ↦ rw (at, allow_switch) g
    ])
  ]
  switch-Kept {f} disconnected e now n g = elim (Option-cases (lookup e.network_key f.held)) [
    | inl free ↦ rw (free, allow_disconnected) (Kept-record e now g)
    | inr (h, at) ↦ rw (at, allow_disconnected) (Kept-erase e.network_key g)
  ]
  switch-Kept _ e now n g = Kept-record e now g

  -- `Allow` passes on notable events only.
  allow-Kept :
      {f : Filter} (e : Event) (now : ℕ)
      → Kept f
      → Kept (allow e now f).0 × ((allow e now f).1 ≡ true → IsNotable p e)
  unfolding allow
  allow-Kept {f} e now g = elim (Bool-cases (is_enabled f.policy e.type)) [
    | inr off ↦ rw off (g, λ t. cc)
    | inl on ↦
        let on' : is_enabled p e.type ≡ true = ap (λ q. is_enabled q e.type) (sym g.policy) ∙ on in
        rw on (elim (Bool-cases (is_secret_needed e.type)) [
          | inl prompt ↦ rw prompt (g, λ _. (on', inl refl))
          | inr plain ↦ rw plain (elim (Bool-cases (is_muted f.policy e.network_key)) [
            | inl muted ↦ rw muted (g, λ t. cc)
            | inr heard ↦
                let heard' : is_muted p e.network_key ≡ false =
                  ap (λ q. is_muted q e.network_key) (sym g.policy) ∙ heard in
                rw heard (elim (Bool-cases (limited f e now)) [
                  | inl soon ↦ rw soon (g, λ t. cc)
                  | inr free ↦
                      rw free (switch-Kept e.type e now (on', inr heard') g, λ _. (on', inr heard'))
                ])
          ])
        ])
  ]

  release-Kept :
      {f : Filter} (key : String) (timer now : ℕ)
      → Kept f
      → let (f', out) = release key timer now f in Kept f' × All (IsNotable p) out
  unfolding release
  release-Kept {f} key timer now g = elim (Option-cases (lookup key f.held)) [
    | inl free ↦ rw (free, release) (g, tt)
    | inr (h, at) ↦
        rw (at, release)
          (elim (Bool-cases (h.timer == timer)) [
            | inr stale ↦ rw stale (g, tt)
            | inl mine ↦ rw mine (
              Kept-record h.event now (Kept-erase key g),
              All-if (IsNotable p) (h.event ∷ []) f.on_ready (g.held key h at, tt),
            )
          ])
  ]

  flush_held-Kept :
      (m : Assoc Held) {f : Filter} (now : ℕ)
      → Distinct m
      → Within m f.held
      → Kept f
      → let (f', ready) = flush_held m now f in Kept f' × All (IsNotable p) ready
  unfolding flush_held
  flush_held-Kept [] now d w g = (g, tt)
  flush_held-Kept ((key, h) ∷ m) {f} now d w g =
      let (g', all) =
        flush_held-Kept m now d.1 (Within-erase m f.held key d.0 w.1)
          (Kept-record h.event now (Kept-erase key g)) in
      (g', (g.held key h w.0, all))

  call-Kept :
      {f : Filter} (c : Call) (now : ℕ)
      → Kept f
      → let (f', out) = call c now f in Kept f' × All (IsNotable p) out
  unfolding call flush
  call-Kept {f} (allow_call e) now g =
      let (g', n) = allow-Kept e now g in
      elim (Bool-cases (allow e now f).1) [
        | inl passed ↦ rw passed (g', (n passed, tt))
        | inr refused ↦ rw refused (g', tt)
      ]
  call-Kept (release_call key timer) now g = release-Kept key timer now g
  call-Kept {f} flush_call now g =
      let (g', all) = flush_held-Kept f.held now g.distinct (Distinct-Within f.held g.distinct) g in
      (g', All-if (IsNotable p) _ (flush_held f.held now f).0.on_ready all)

  All-log_all :
      (now : ℕ) (es : List Event) (log : Log)
      → All (IsNotable p) es
      → All (λ d. IsNotable p d.1) log
      → All (λ d. IsNotable p d.1) (log_all now es log)
  All-log_all now [] log h g = g
  All-log_all now (e ∷ es) log (n, h) g = All-log_all now es ((now, e) ∷ log) h (n, g)

  run-Kept :
      (calls : List (ℕ × Call)) {f : Filter} (log : Log)
      → Kept f
      → All (λ d. IsNotable p d.1) log
      → All (λ d. IsNotable p d.1) (run calls f log).1
  unfolding run
  run-Kept [] log g all = all
  run-Kept ((now, c) ∷ calls) {f} log g all =
      let (g', out) = call-Kept c now g in
      run-Kept calls _ g' (All-log_all now (call c now f).1 log out all)

  -- Whatever the calls, their times and their order: every event that reaches the user is of an
  -- enabled type, and it is a prompt or its Network Key is not muted. Held events are no exception.
  pub run-IsNotable :
      (ready : Bool) (calls : List (ℕ × Call))
      → All (λ d. IsNotable p d.1) (run calls (set_on_ready ready (new_filter p)) []).1
  unfolding new_filter set_on_ready lookup
  run-IsNotable ready calls =
      run-Kept calls []
        (record { policy = refl; distinct = tt; held = λ k h e. absurd (ground arith) }) tt

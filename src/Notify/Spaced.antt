-- ===== src/Notify/Spaced.antt =====
-- What the log of deliveries and the filter's maps owe each other, so that deliveries are spaced.
use better_nm.Prelude.{
  ℕ, ◌+◌, ◌≤◌, String, [], ◌∷◌, Bool, true, false, some, Assoc, lookup, insert, erase, Distinct,
  All, All-map, ◌≡◌, ◌≢◌, inl, inr, ap, sym, ◌∙◌, arith, eq_iff, leb, lookup-insert, lookup-erase,
  erase-Distinct, if◌then◌else◌, Bool-cases, str_eq,
}
use better_nm.Core.Event.{Event, connected, type_name}
use better_nm.Notify.Policy.{Policy}
use better_nm.Notify.RateKey.{rate_key, rate_key_inj}
use better_nm.Notify.Filter.{Filter, Held, record_at, is_secret_needed, limited}
use better_nm.Notify.Trace.{Log}

abbrev SameRate : Event → Event → Type 0
SameRate e e' = (e.type ≡ e'.type) × (e.network_key ≡ e'.network_key)

-- Of two entries for the same type and Network Key the later one is at least `gap` later, but for
-- prompts.
abbrev pub Spaced : ℕ → Log → Type 0
Spaced gap [] = Unit
Spaced gap ((t, e) ∷ log) =
    (is_secret_needed e.type ≡ false → All (λ d. SameRate d.1 e → d.0 + gap ≤ t) log)
    × Spaced gap log

rate_key_cong : (a b : Event) → SameRate a b → rate_key a ≡ rate_key b
unfolding rate_key
rate_key_cong a b (t, k) = cc (ap type_name t)

module _ (p : Policy) where
  -- Nothing of the rate key of `e` was delivered in the last `RateLimit`.
  abbrev pub Clear : Assoc ℕ → Event → ℕ → Type 0
  Clear last e now = (l : ℕ) → lookup (rate_key e) last ≡ some l → l + p.rate_limit ≤ now

  abbrev Covered : Assoc ℕ → ℕ × Event → Type 0
  Covered last d =
      is_secret_needed d.1.type ≡ false
      → (l : ℕ) × (lookup (rate_key d.1) last ≡ some l) × (d.0 ≤ l)

  pub record Waits (last : Assoc ℕ) (now : ℕ) (k : String) (h : Held) : Type 0 where
    pub type : h.event.type ≡ connected
    pub key : h.event.network_key ≡ k
    pub debounced : leb p.debounce 0 ≡ false
    pub clear : Clear last h.event now

  pub record Good (f : Filter) (log : Log) (now : ℕ) : Type 0 where
    pub policy : f.policy ≡ p
    pub distinct : Distinct f.held
    pub covers : All (Covered f.last) log
    pub past : (k : String) (l : ℕ) → lookup k f.last ≡ some l → l ≤ now
    pub waits : (k : String) (h : Held) → lookup k f.held ≡ some h → Waits f.last now k h
    pub spaced : Spaced p.rate_limit log

  pub Good-later : {f : Filter} {log : Log} (s now : ℕ) → s ≤ now → Good f log s → Good f log now
  Good-later s now le g = record {
    policy = g.policy;
    distinct = g.distinct;
    covers = g.covers;
    past = λ k l e. omega (arith, g.past k l e);
    waits = λ k h e.
        let w = g.waits k h e in
        record {
          type = w.type;
          key = w.key;
          debounced = w.debounced;
          clear = λ l e'. omega (arith, w.clear l e');
        };
    spaced = g.spaced;
  }

  pub Good-erase :
      {f : Filter} {log : Log} {now : ℕ} (key : String)
      → Good f log now
      → Good (record f { held = erase key f.held }) log now
  Good-erase {f} key g = record {
    policy = g.policy;
    distinct = erase-Distinct key f.held g.distinct;
    covers = g.covers;
    past = g.past;
    waits = λ k h e. g.waits k h (ground (arith, lookup-erase key k f.held));
    spaced = g.spaced;
  }

  -- `b` says whether the recorded event reaches the user.
  abbrev pub logged : Bool → ℕ → Event → Log → Log
  logged b now e log = if b then (now, e) ∷ log else log

  module _ (e : Event) (now : ℕ) where
    Covered-insert :
        (last : Assoc ℕ) (d : ℕ × Event)
        → ((k : String) (l : ℕ) → lookup k last ≡ some l → l ≤ now)
        → Covered last d
        → Covered (insert (rate_key e) now last) d
    Covered-insert last d past c s =
        let (l, at, le) = c s in
        elim (Bool-cases (str_eq (rate_key e) (rate_key d.1))) [
          | inl same ↦ (
            now,
            rw (lookup-insert (rate_key e) (rate_key d.1) now last, same),
            omega (arith, past _ l at),
          )
          | inr other ↦ (l, rw (lookup-insert (rate_key e) (rate_key d.1) now last, other) at, le)
        ]

    Clear-spaced :
        (last : Assoc ℕ) (log : Log)
        → Clear last e now
        → is_secret_needed e.type ≡ false
        → All (Covered last) log
        → All (λ d. SameRate d.1 e → d.0 + p.rate_limit ≤ now) log
    Clear-spaced last log clear plain =
        All-map (Covered last) (λ d. SameRate d.1 e → d.0 + p.rate_limit ≤ now) log
          λ d c same.
            let (l, at, le) = c (ap is_secret_needed same.0 ∙ plain) in
            omega (arith, clear l (ap (λ k. lookup k last) (sym (rate_key_cong d.1 e same)) ∙ at))

    pub Good-record :
        {f : Filter} {log : Log} (b : Bool)
        → is_secret_needed e.type ≡ false
        → Clear f.last e now
        → ((k : String) (h : Held) → lookup k f.held ≡ some h → rate_key e ≢ rate_key h.event)
        → Good f log now
        → Good (record_at e now f) (logged b now e log) now
    unfolding record_at
    Good-record {f} {log} b plain clear fresh g = record {
      policy = g.policy;
      distinct = g.distinct;
      covers = covers b;
      past = λ k l at. ground (arith, lookup-insert (rate_key e) k now f.last, g.past k l);
      waits = λ k h at.
          let w = g.waits k h at in
          record {
            type = w.type;
            key = w.key;
            debounced = w.debounced;
            clear = λ l at'. w.clear l (
                ground (
                  arith,
                  lookup-insert (rate_key e) (rate_key h.event) now f.last,
                  eq_iff (rate_key e) (rate_key h.event),
                  fresh k h at,
                ));
          };
      spaced = spaced b;
    }
      where
        old : All (Covered (insert (rate_key e) now f.last)) log
        old =
            All-map (Covered f.last) (Covered (insert (rate_key e) now f.last)) log
              (λ d. Covered-insert f.last d g.past) g.covers

        covers : (b : Bool) → All (Covered (insert (rate_key e) now f.last)) (logged b now e log)
        covers true = (
          λ _. (
            now,
            ground (
              arith,
              lookup-insert (rate_key e) (rate_key e) now f.last,
              eq_iff (rate_key e) (rate_key e),
            ),
            omega arith,
          ),
          old,
        )
        covers false = old

        spaced : (b : Bool) → Spaced p.rate_limit (logged b now e log)
        spaced true = (λ _. Clear-spaced f.last log clear plain g.covers, g.spaced)
        spaced false = g.spaced

  -- What an event of another type or key than the held ones owes them.
  pub fresh_of_type :
      {f : Filter} {log : Log} {now : ℕ} (e : Event)
      → e.type ≢ connected
      → Good f log now
      → (k : String) (h : Held) → lookup k f.held ≡ some h
      → rate_key e ≢ rate_key h.event
  fresh_of_type e ne g k h at same = ne ((rate_key_inj e h.event same).0 ∙ (g.waits k h at).type)

  pub fresh_of_erase :
      {f : Filter} {log : Log} {now : ℕ} (key : String) (w : Held)
      → lookup key f.held ≡ some w
      → Good f log now
      → (k : String) (h : Held) → lookup k (erase key f.held) ≡ some h
      → rate_key w.event ≢ rate_key h.event
  fresh_of_erase {f} key w at g k h at' same =
      let old : lookup k f.held ≡ some h = ground (arith, lookup-erase key k f.held) in
      let keys = (rate_key_inj w.event h.event same).1 in
      let eq : key ≡ k = sym (g.waits key w at).key ∙ keys ∙ (g.waits k h old).key in
      ground (arith, lookup-erase key k f.held, eq_iff key k)

  pub limited-Clear :
      (f : Filter) (e : Event) (now : ℕ)
      → f.policy ≡ p
      → ((k : String) (l : ℕ) → lookup k f.last ≡ some l → l ≤ now)
      → limited f e now ≡ false
      → Clear f.last e now
  unfolding limited
  limited-Clear f e now same past free l at =
      ground (arith, past (rate_key e) l at, ap (λ (q : Policy). q.rate_limit) same)

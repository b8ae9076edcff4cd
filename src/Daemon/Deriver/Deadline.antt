-- ===== src/Daemon/Deriver/Deadline.antt =====
-- `nextDeadline` says exactly when `flush` has work.
use better_nm.Prelude.{
  ℕ, ◌<◌, [], Option, none, some, ◌≡◌, ◌≢◌, inl, inr, arith, Bool, true, false, leb, Option-cases,
}
use better_nm.Daemon.Deriver.State.{Deriver, PendingDisconnect, PendingNoInternet}
use better_nm.Daemon.Deriver.Machine.{flush, flush_disconnect, flush_no_internet, next_deadline}

-- No timer was started at Go's zero time.
pub record IsTimed (d : Deriver) : Type 0 where
  pub disc : (pd : PendingDisconnect) → d.pending_disc ≡ some pd → 0 < pd.at
  pub quiet : (pn : PendingNoInternet) → d.pending_no_internet ≡ some pn → 0 < pn.since

-- The daemon's timer for the deadline has run.
abbrev pub is_due : Option ℕ → ℕ → Bool
is_due none now = false
is_due (some t) now = leb t now

flush_due : (d : Deriver) (now : ℕ) → is_due (next_deadline d) now ≡ true → (flush now d).1 ≢ []
unfolding flush flush_disconnect flush_no_internet next_deadline
flush_due d now due = ground arith

flush_early :
    (d : Deriver) (now : ℕ)
    → IsTimed d
    → is_due (next_deadline d) now ≡ false
    → flush now d ≡ (d, [])
unfolding flush flush_disconnect flush_no_internet next_deadline
flush_early d now timed early = elim (Option-cases d.pending_disc) [
  | inl free ↦ elim (Option-cases d.pending_no_internet) [
    | inl quiet ↦ ground arith
    | inr (pn, bad) ↦ ground (arith, timed.quiet pn bad)
  ]
  | inr (pd, gone) ↦ elim (Option-cases d.pending_no_internet) [
    | inl quiet ↦ ground (arith, timed.disc pd gone)
    | inr (pn, bad) ↦ ground (arith, timed.disc pd gone, timed.quiet pn bad)
  ]
]

-- From its deadline on `flush` emits an event; before it, or with none, it changes nothing and
-- emits nothing.
pub next_deadline_exact :
    (d : Deriver) (now : ℕ)
    → IsTimed d
    → (is_due (next_deadline d) now ≡ true → (flush now d).1 ≢ [])
      × (is_due (next_deadline d) now ≡ false → flush now d ≡ (d, []))
next_deadline_exact d now timed = (flush_due d now, flush_early d now timed)

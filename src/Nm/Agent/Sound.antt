-- ===== src/Nm/Agent/Sound.antt =====
-- What a step of the agent does to every request.
use better_nm.Prelude.{
  String, [], ◌∷◌, true, false, lookup, lookup-insert, any, str_eq, ◌≡◌, arith, eq_iff, Bool-cases,
  Option-cases, inl, inr,
}
use better_nm.Core.Secrets.{SecretOutcome, cancelled}
use better_nm.Nm.Agent.{
  Pending, needed, no_answer, is_for, resolve, sweep, enlist, cancel_by_nm, cancel_all,
}
use better_nm.Nm.Agent.Broker.{answer, cancel}
use better_nm.Nm.Agent.World.{
  World, IsNew, after, effect, Step, ask, answers, cancels, cancels_by_nm, expires, closes,
  cancels_all, forgets,
}
use better_nm.Nm.Agent.Requests.{times, times-append, lookup-sweep}
use better_nm.Nm.Agent.Lives.{Inv, Settles-Moves, resolve-Settles, answer-Settles, cancel-Settles}
use better_nm.Nm.Agent.Steps.{
  Sound, Progress, asks, after-Progress, known_before, after-Inv, sweep-Moves, enlist-Moves,
  forget-Moves,
}

-- The request that a call of GetSecrets makes is known from there on.
ask-Inv :
    (w : World) (id : String) (p : Pending) (unused : any (str_eq id) w.issued ≡ false)
    (new : IsNew id p)
    → Inv w
    → Inv (record (after w (enlist id p w.agent)) { issued = id ∷ w.issued })
unfolding enlist times
ask-Inv w id p unused new inv =
    let kept = (enlist-Moves w id p id unused new inv).1 in
    let which = is_for p.conn_path p.setting in
    let swept_all = (sweep which true w.agent.on_resolved w.agent.pending).0 in
    record {
      listening = kept.listening;
      distinct = kept.distinct;
      keyed = kept.keyed;
      drawn = λ j q at. elim (Bool-cases (str_eq id j)) [
        | inl same ↦ ground (arith, eq_iff id j, eq_iff j id)
        | inr differs ↦ elim (Option-cases (lookup j w.agent.pending)) [
          | inl free ↦ absurd (
              ground (
                arith,
                lookup-insert id j p swept_all,
                lookup-sweep which true w.agent.pending w.agent.on_resolved j,
              ))
          | inr (r, taken) ↦ ground (arith, inv.drawn j r taken)
        ]
      ];
      silent = λ j none_yet. ground (arith, times-append j w.log (needed p.req ∷ []), inv.silent j);
    }

module _ {w : World} (inv : Inv w) where
  settled :
      (id : String) (outcome : SecretOutcome) → Sound w (resolve id outcome no_answer false w.agent)
  settled id outcome =
      let r = resolve id outcome no_answer false w.agent in
      let s = resolve-Settles w id outcome no_answer false inv in
      record {
        moves = λ j. (Settles-Moves w id outcome no_answer false r j inv s).0;
        kept = (Settles-Moves w id outcome no_answer false r id inv s).1;
      }

  by_nm-Sound : (conn_path setting : String) → Sound w (cancel_by_nm conn_path setting w.agent)
  unfolding cancel_by_nm
  by_nm-Sound conn_path setting = record {
    moves = λ j. (sweep-Moves w (is_for conn_path setting) true j inv).0;
    kept = (sweep-Moves w (is_for conn_path setting) true "" inv).1;
  }

  all-Sound : Sound w (cancel_all w.agent)
  unfolding cancel_all
  all-Sound = record {
    moves = λ j. (sweep-Moves w (λ p. true) false j inv).0;
    kept = (sweep-Moves w (λ p. true) false "" inv).1;
  }

  pub Step-cases : {v : World} (st : Step w v) → Inv v × ((j : String) → Progress w v (asks st j) j)
  unfolding times
  Step-cases (ask id p unused new) = (
    ask-Inv w id p unused new inv,
    λ j.
        let g =
          after-Progress w (enlist id p w.agent) (str_eq id j) j
            (enlist-Moves w id p j unused new inv).0 in
        record { more = g.more; moves = g.moves; counted = g.counted },
  )
  Step-cases (answers id ans) =
      let r = effect (answer id ans w.agent) in
      let m = λ (j : String).
        Settles-Moves w id SecretOutcome.answered ans false r j inv (answer-Settles w id ans inv) in
      (
        after-Inv w r inv (record { moves = λ j. (m j).0; kept = (m id).1 }),
        λ j. after-Progress w r false j (m j).0,
      )
  Step-cases (cancels id) =
      let r = effect (cancel id w.agent) in
      let m = λ (j : String).
        Settles-Moves w id cancelled no_answer false r j inv (cancel-Settles w id inv) in
      (
        after-Inv w r inv (record { moves = λ j. (m j).0; kept = (m id).1 }),
        λ j. after-Progress w r false j (m j).0,
      )
  Step-cases (cancels_by_nm conn_path setting) =
      let s = by_nm-Sound conn_path setting in
      (after-Inv w _ inv s, λ j. after-Progress w _ false j (s.moves j))
  Step-cases (expires id) =
      let s = settled id SecretOutcome.timeout in
      (after-Inv w _ inv s, λ j. after-Progress w _ false j (s.moves j))
  Step-cases (closes id) =
      let s = settled id cancelled in
      (after-Inv w _ inv s, λ j. after-Progress w _ false j (s.moves j))
  Step-cases cancels_all =
      (after-Inv w _ inv all-Sound, λ j. after-Progress w _ false j (all-Sound.moves j))
  Step-cases (forgets id p at done) =
      let m = λ (j : String). forget-Moves w id p j at done inv in
      (
        record {
          listening = (m id).1.listening;
          distinct = (m id).1.distinct;
          keyed = (m id).1.keyed;
          drawn = λ j q here_yet.
              let (r, before) = known_before j q _ _ _ (m j).0 here_yet in inv.drawn j r before;
          silent = inv.silent;
        },
        λ j. record { more = 0; moves = (m j).0; counted = omega arith },
      )

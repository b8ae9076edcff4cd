-- ===== src/Monitor/Rounds.antt =====
-- internal/monitor/monitor.go: the monitor around the engine. A round is `begin_round`, which reads
-- the state, the probes, whose results are arguments, and `end_round`, which finds the state as it is
-- then. The store's answers are arguments, its writes are returned. The channels are bounded queues.
use better_nm.Prelude.{
  ℕ, ◌+◌, String, List, [], ◌∷◌, ◌++◌, Bool, true, false, not, ◌&&◌, ◌||◌, Option, none, some, map,
  length, ltb, leb, str_eq, if◌then◌else◌,
}
use better_nm.Core.Event.{Event}
use better_nm.Core.Monitor.{Sample, BaselineState, idle, Baseline}
use better_nm.Monitor.Floats.{Floats}
use better_nm.Monitor.Config.{EngineConfig}
use better_nm.Monitor.Engine.{
  gateway_anchor, Engine, Transition, new_engine, reset, state_of, baselines, add_all,
}
use better_nm.Monitor.Events.{event_for}
use better_nm.Monitor.Load.{load, last_time}

pub record MonitorConfig (F : Type 0) : Type 0 where
  pub interval : ℕ
  pub anchors : Option (List String)  -- none is nil
  pub engine : EngineConfig F
  pub round_timeout : ℕ

pub record Monitor (F : Type 0) : Type 0 where
  pub interval : ℕ
  pub anchors : List String
  pub engine : Engine F
  pub network_key : String
  pub gateway_ip : String
  pub paused : Bool
  pub last_sample : ℕ
  pub last_prune : ℕ
  pub events : List Event
  pub changes : List String  -- the paths of the changes, all of the monitor
  pub wake : Bool

-- What the store returns for a key: its baselines, and the samples of each anchor; none is an error.
pub record Stored (F : Type 0) : Type 0 where
  pub baselines : Option (List (Baseline F))
  pub samples : String → Option (List (Sample F))

pub record MonitorStatus (F : Type 0) : Type 0 where
  pub network_key : String
  pub state : BaselineState
  pub anchors : List (Baseline F)
  pub last_sample : ℕ
  pub interval : ℕ
  pub paused : Bool

-- A target: the anchor and its address.
abbrev pub Target : Type 0
Target = String × String

-- What a probe returns.
pub record Probed (F : Type 0) : Type 0 where
  pub rtt : F
  pub loss : F
  pub method : String
  pub failed : Bool

pub data StoreWrite (F : Type 0) : Type 0 where
  add_sample : Sample F → StoreWrite F
  put_baseline : Baseline F → StoreWrite F
  delete_baselines : String → StoreWrite F
  prune : StoreWrite F

abbrev pub event_buffer : ℕ
event_buffer = 32

abbrev is_unset : BaselineState → Bool
is_unset BaselineState.unset = true
is_unset _ = false

module _ {F : Type 0} where
  unfoldable pub emit_change : String → Monitor F → Monitor F
  emit_change path m =
      if ltb (length m.changes) event_buffer
      then record m { changes = m.changes ++ (path ∷ []) }
      else m

  unfoldable pub poke : Monitor F → Monitor F
  poke m = record m { wake = true }

  -- The `select` that sends an event.
  unfoldable pub send : Event → Monitor F → Monitor F
  send e m =
      if ltb (length m.events) event_buffer then record m { events = m.events ++ (e ∷ []) } else m

  unfoldable pub pause : Monitor F → Monitor F
  unfolding emit_change
  pause m = emit_change "paused" (record m { paused = true })

  unfoldable pub resume : Monitor F → Monitor F
  unfolding emit_change poke
  resume m = poke (emit_change "resumed" (record m { paused = false }))

  -- `deleted` says whether the store could delete.
  unfoldable pub reset_baseline : String → Bool → Monitor F → Monitor F × List (StoreWrite F)
  unfolding emit_change
  reset_baseline asked deleted m =
      let key = if str_eq asked "" then m.network_key else asked in
      let m' = record m { engine = reset key m.engine } in
      if str_eq key ""
      then (m', [])
      else (if deleted then emit_change "reset" m' else m', delete_baselines key ∷ [])

  unfoldable pub status : Monitor F → MonitorStatus F
  status m =
      let known = not (str_eq m.network_key "") in
      let found = (state_of m.network_key m.engine).0 in
      record {
        network_key = m.network_key;
        state = if known && not (is_unset found) then found else idle;
        anchors = if known then baselines m.network_key m.engine else [];
        last_sample = m.last_sample;
        interval = m.interval;
        paused = m.paused;
      }

  unfoldable pub maybe_prune : ℕ → Monitor F → Monitor F × List (StoreWrite F)
  maybe_prune now m =
      if leb (m.last_prune + 3600000000000) now
      then (record m { last_prune = now }, prune ∷ [])
      else (m, [])

  -- The loop of `warmLocked` over the anchors.
  unfoldable pub stored_samples : Stored F → List String → List (Sample F)
  stored_samples st [] = []
  stored_samples st (a ∷ as_left) =
      let rest = stored_samples st as_left in
      elim (st.samples a) [ none ↦ rest | some ss ↦ ss ++ rest ]

  abbrev pub rows : Option (List (Baseline F)) → List (Baseline F)
  rows none = []
  rows (some bs) = bs

  -- The targets of a round, or none if there is nothing to do.
  unfoldable targets : Monitor F → List Target
  targets m =
      let public : List Target = map (λ a. (a, a)) m.anchors in
      if str_eq m.gateway_ip "" then public else (gateway_anchor, m.gateway_ip) ∷ public

  unfoldable pub begin_round : Bool → Monitor F → Option (String × List Target)
  unfolding targets
  begin_round ended m =
      if str_eq m.network_key "" || m.paused || ended
      then none
      else if leb (length (targets m)) 0
      then none
      else some (m.network_key, targets m)

  module _ ⦃fl : Floats F⦄ where
    open fl use {of_ℕ, minus_one}

    unfoldable pub new_monitor : MonitorConfig F → Monitor F
    unfolding new_engine
    new_monitor c = record {
      interval = if leb c.interval 0 then 30000000000 else c.interval;
      anchors = elim c.anchors [ none ↦ "1.1.1.1" ∷ ("8.8.8.8" ∷ []) | some anchors ↦ anchors ];
      engine = new_engine c.engine;
      network_key = "";
      gateway_ip = "";
      paused = false;
      last_sample = 0;
      last_prune = 0;
      events = [];
      changes = [];
      wake = false;
    }

    -- `warmLocked`
    unfoldable pub warm : String → Stored F → Monitor F → Monitor F
    unfolding stored_samples
    warm key st m =
        let samples = stored_samples st (gateway_anchor ∷ m.anchors) in
        record m {
          engine = load (rows st.baselines) samples (reset key m.engine);
          last_sample = last_time m.last_sample samples;
        }

    unfoldable pub set_network : String → String → Stored F → Monitor F → Monitor F
    unfolding warm emit_change poke
    set_network key gateway st m =
        let changed = not (str_eq key m.network_key) in
        let m₁ = record m { network_key = key; gateway_ip = gateway } in
        let m₂ = if changed && not (str_eq key "") then warm key st m₁ else m₁ in
        if changed then poke (emit_change "network" m₂) else m₂

    -- The sample of one probe.
    unfoldable pub sample_of : String → ℕ → Target → Probed F → F → Sample F
    sample_of key now (anchor, addr) p dns = record {
      time = now;
      network_key = key;
      anchor = anchor;
      anchor_addr = addr;
      rtt_ms = if p.failed then minus_one else p.rtt;
      loss = if p.failed then of_ℕ 1 else p.loss;
      dns_ms = dns;
      method = p.method;
    }

    -- The samples of a round; the first one carries the time of the DNS probe.
    unfoldable pub round_samples : String → ℕ → List (Target × Probed F) → F → List (Sample F)
    unfolding sample_of
    round_samples key now [] dns = []
    round_samples key now ((t, p) ∷ rest) dns =
        sample_of key now t p dns ∷ round_samples key now rest minus_one

    -- The loop over the transitions.
    unfoldable pub report : (F → String) → List (Transition F) → Monitor F → Monitor F
    unfolding event_for send
    report print [] m = m
    report print (tr ∷ trs) m =
        report print trs (elim (event_for print tr) [ none ↦ m | some e ↦ send e m ])

    -- The end of a round that was begun for `key`.
    unfoldable pub end_round :
        (F → String)
        → Bool
        → String
        → ℕ
        → List (Target × Probed F)
        → F
        → Monitor F
        → Monitor F × List (StoreWrite F)
    unfolding round_samples report emit_change
    end_round print ended key now probed dns m =
        if ended || not (str_eq m.network_key key)
        then (m, [])
        else let samples = round_samples key now probed dns in
          let (engine', transitions) = add_all samples m.engine in
          (
            emit_change "round"
                (report print transitions (record m { engine = engine'; last_sample = now })),
            map add_sample samples ++ map put_baseline (baselines key engine'),
          )

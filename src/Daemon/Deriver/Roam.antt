-- ===== src/Daemon/Deriver/Roam.antt =====
-- internal/daemon/derive.go: the steps that emit no connected and no disconnected event.
use better_nm.Prelude.{
  ℕ, ◌+◌, ◌<◌, String, List, [], ◌∷◌, ◌++◌, Bool, true, false, none, some, All, ◌≡◌, refl, arith,
  eq_iff, All-append, ap, sym, ◌∙◌, Assoc, Option-cases, inl, inr,
}
use better_nm.Core.Event.{Event, EventType, connected, disconnected}
use better_nm.Core.Status.{ActiveConnection, Connectivity, network_key}
use better_nm.Core.Vpn.{Vpn}
use better_nm.Daemon.Deriver.State.{
  View, Deriver, PendingDisconnect, connected_primary, monitor_network,
}
use better_nm.Daemon.Deriver.Events.{no_internet_event, restored_event, vpn_event}
use better_nm.Daemon.Deriver.Machine.{
  flush_disconnect, flush_no_internet, flush, switch_primary, switch_connectivity, update_vpns,
  vpns_seen, vpns_up, vpns_down, advance, apply, apply-advance,
}

abbrev pub is_link : EventType → Bool
is_link connected = true
is_link disconnected = true
is_link _ = false

-- The event is neither a connected nor a disconnected one; no-internet, restored and VPN events are
-- quiet.
abbrev pub IsQuiet : Event → Type 0
IsQuiet e = is_link e.type ≡ false

vpns_up-IsQuiet :
    (key : String) (now : ℕ) (up : Assoc Vpn) (vs : List Vpn) → All IsQuiet (vpns_up key now up vs)
unfolding vpns_up vpn_event
vpns_up-IsQuiet key now up [] = tt
vpns_up-IsQuiet key now up (v ∷ vs) = ground (arith, vpns_up-IsQuiet key now up vs)

vpns_down-IsQuiet :
    (key : String) (now : ℕ) (seen up : Assoc Vpn) → All IsQuiet (vpns_down key now seen up)
unfolding vpns_down vpn_event
vpns_down-IsQuiet key now seen [] = tt
vpns_down-IsQuiet key now seen ((i, v) ∷ up) = ground (arith, vpns_down-IsQuiet key now seen up)

update_vpns-IsQuiet :
    (vpns : List Vpn) (now : ℕ) (d : Deriver) → All IsQuiet (update_vpns vpns now d).1
unfolding update_vpns
update_vpns-IsQuiet vpns now d =
    All-append IsQuiet (vpns_up d.primary_key now d.vpn_up vpns) _
      (vpns_up-IsQuiet d.primary_key now d.vpn_up vpns)
      (vpns_down-IsQuiet d.primary_key now (vpns_seen vpns []) d.vpn_up)

-- The state and the events of a quiet step: the probe engine's network stays.
pub record Keeps (d : Deriver) (r : Deriver × List Event) : Type 0 where
  pub quiet : All IsQuiet r.1
  pub network : monitor_network r.0 ≡ monitor_network d
  pub primary : r.0.primary ≡ d.primary
  pub waiting : r.0.pending_disc ≡ d.pending_disc
  pub debounce : r.0.debounce ≡ d.debounce

switch_connectivity-Keeps :
    (conn : Connectivity) (now : ℕ) (d : Deriver) → Keeps d (switch_connectivity conn now d)
unfolding switch_connectivity restored_event monitor_network
switch_connectivity-Keeps conn now d = ground arith

update_vpns-Keeps : (vpns : List Vpn) (now : ℕ) (d : Deriver) → Keeps d (update_vpns vpns now d)
unfolding update_vpns monitor_network
update_vpns-Keeps vpns now d = record {
  quiet = update_vpns-IsQuiet vpns now d;
  network = refl;
  primary = refl;
  waiting = refl;
  debounce = refl;
}

-- The disconnect that waits, if any, is not due yet.
abbrev pub IsEarly : Deriver → ℕ → Type 0
IsEarly d now = (pd : PendingDisconnect) → d.pending_disc ≡ some pd → now < pd.at + d.debounce

pub flush-Keeps : (now : ℕ) (d : Deriver) → IsEarly d now → Keeps d (flush now d)
unfolding flush flush_disconnect flush_no_internet no_internet_event monitor_network
flush-Keeps now d early = elim (Option-cases d.pending_disc) [
  | inl free ↦ ground arith
  | inr (pd, at) ↦ ground (arith, early pd at)
]

Keeps-append :
    (d : Deriver) (r r' : Deriver × List Event)
    → Keeps d r
    → Keeps r.0 r'
    → Keeps d (r'.0, r.1 ++ r'.1)
Keeps-append d r r' k k' = record {
  quiet = All-append IsQuiet r.1 r'.1 k.quiet k'.quiet;
  network = k'.network ∙ k.network;
  primary = k'.primary ∙ k.primary;
  waiting = k'.waiting ∙ k.waiting;
  debounce = k'.debounce ∙ k.debounce;
}

-- What follows the first `switch` of `apply`.
tail-Keeps :
    (v : View) (now : ℕ) (d : Deriver)
    → IsEarly d now
    → let r₂ = switch_connectivity v.status.connectivity now d in
      let r₃ = update_vpns v.vpns now r₂.0 in
      let r₄ = flush now r₃.0 in Keeps d (r₄.0, r₂.1 ++ (r₃.1 ++ r₄.1))
tail-Keeps v now d early =
    let r₂ = switch_connectivity v.status.connectivity now d in
    let r₃ = update_vpns v.vpns now r₂.0 in
    let k₂ = switch_connectivity-Keeps v.status.connectivity now d in
    let k₃ = update_vpns-Keeps v.vpns now r₂.0 in
    Keeps-append d r₂ ((flush now r₃.0).0, r₃.1 ++ (flush now r₃.0).1) k₂
      (Keeps-append r₂.0 r₃ (flush now r₃.0) k₃ (
        flush-Keeps now r₃.0 (λ pd at.
          rw (k₃.debounce ∙ k₂.debounce) (early pd (sym (k₃.waiting ∙ k₂.waiting) ∙ at)))))

-- The primary of `d` goes away at `now`.
abbrev pub dropped : Deriver → ActiveConnection → ℕ → Deriver
dropped d p now = record d {
  primary = none;
  primary_key = "";
  primary_name = "";
  pending_disc =
      some (record { key = d.primary_key; name = d.primary_name; uuid = p.profile_uuid; at = now });
}

abbrev pub returned : Deriver → ActiveConnection → String → Deriver
returned d cur key = record d {
  pending_disc = none;
  primary = some cur;
  primary_key = key;
  primary_name = cur.profile_name;
}

switch_primary-dropped :
    (key : String) (now : ℕ) (d : Deriver) (p : ActiveConnection)
    → d.primary ≡ some p
    → switch_primary d.primary none key now d ≡ (dropped d p now, [])
switch_primary-dropped key now d p was =
    ap (λ w. switch_primary w none key now d) was ∙ (unfold switch_primary in refl)

switch_primary-returned_none :
    (key : String) (now : ℕ) (d : Deriver) (cur : ActiveConnection) (pd : PendingDisconnect)
    → d.pending_disc ≡ some pd
    → pd.key ≡ key
    → switch_primary none (some cur) key now d ≡ (returned d cur key, [])
unfolding switch_primary
switch_primary-returned_none key now d cur pd waits same = ground (arith, eq_iff pd.key key)

switch_primary-returned :
    (key : String) (now : ℕ) (d : Deriver) (cur : ActiveConnection) (pd : PendingDisconnect)
    → d.primary ≡ none
    → d.pending_disc ≡ some pd
    → pd.key ≡ key
    → switch_primary d.primary (some cur) key now d ≡ (returned d cur key, [])
switch_primary-returned key now d cur pd was waits same =
    ap (λ w. switch_primary w (some cur) key now d) was
    ∙ switch_primary-returned_none key now d cur pd waits same

pub apply-dropped :
    (v : View) (now : ℕ) (d : Deriver) (p : ActiveConnection)
    → d.initialized ≡ true
    → d.primary ≡ some p
    → connected_primary v.status ≡ none
    → 0 < d.debounce
    → Keeps (dropped d p now) (apply v now d)
unfolding advance
apply-dropped v now d p ready was gone pos =
    rw (apply-advance v now d ready, gone)
      (rw (switch_primary-dropped (network_key none v.profiles) now d p was)
        (tail-Keeps v now (dropped d p now) (λ pd at. ground arith)))

-- A primary of the key that waits comes back.
pub apply-returned :
    (v : View) (now : ℕ) (d : Deriver) (cur : ActiveConnection) (pd : PendingDisconnect)
    → d.initialized ≡ true
    → d.primary ≡ none
    → d.pending_disc ≡ some pd
    → connected_primary v.status ≡ some cur
    → pd.key ≡ network_key (some cur) v.profiles
    → Keeps (returned d cur (network_key (some cur) v.profiles)) (apply v now d)
unfolding advance
apply-returned v now d cur pd ready was waits back same =
    let key = network_key (some cur) v.profiles in
    rw (apply-advance v now d ready, back)
      (rw (switch_primary-returned key now d cur pd was waits same)
        (tail-Keeps v now (returned d cur key) (λ pd at. absurd (ground arith))))

-- ===== src/Daemon/Deriver/Replay.antt =====
-- What a surface that replays the deriver's events knows, and what the events on VPNs tell it.
use better_nm.Prelude.{
  ℕ, String, List, [], ◌∷◌, ◌++◌, Bool, true, false, not, ◌&&◌, ◌||◌, Option, none, some, Assoc,
  lookup, is_some, str_eq, if◌then◌else◌, All, ◌≡◌, refl, ap, ◌∙◌, arith, eq_iff, lookup-insert,
}
use better_nm.Core.Event.{
  Event, EventType, connected, disconnected, no_internet, internet_restored, vpn_up, vpn_down,
}
use better_nm.Core.Status.{ActiveConnection, Connectivity}
use better_nm.Core.Vpn.{Vpn}
use better_nm.Daemon.Deriver.State.{Deriver, is_connected}
use better_nm.Daemon.Deriver.Events.{
  connected_event, disconnected_event, no_internet_event, restored_event, vpn_event,
}
use better_nm.Daemon.Deriver.Machine.{
  flush_disconnect, flush_no_internet, flush, switch_primary, switch_connectivity, vpns_seen,
  vpns_up, vpns_down,
}

abbrev pub key_after : EventType → String → String → String
key_after connected key old = key
key_after disconnected key old = ""
key_after _ key old = old

abbrev pub offline_after : EventType → Bool → Bool
offline_after connected old = false
offline_after disconnected old = false
offline_after no_internet old = true
offline_after internet_restored old = false
offline_after _ old = old

abbrev pub vpn_after : EventType → Bool → Bool → Bool
vpn_after vpn_up mine old = if mine then true else old
vpn_after vpn_down mine old = if mine then false else old
vpn_after _ mine old = old

abbrev pub follow_key : Event → String → String
follow_key e old = key_after e.type e.network_key old

abbrev pub follow_offline : Event → Bool → Bool
follow_offline e old = offline_after e.type old

abbrev pub names_vpn : String → Option String → Bool
names_vpn id none = false
names_vpn id (some i) = str_eq i id

abbrev pub follow_vpn : String → Event → Bool → Bool
follow_vpn id e old = vpn_after e.type (names_vpn id (lookup "vpn" e.extra)) old

abbrev pub replay {ℓ} : {S : Type ℓ} → (Event → S → S) → List Event → S → S
replay step [] s = s
replay step (e ∷ es) s = replay step es (step e s)

pub replay-append {ℓ} :
    {S : Type ℓ} (step : Event → S → S) (es es' : List Event) (s : S)
    → replay step (es ++ es') s ≡ replay step es' (replay step es s)
replay-append step [] es' s = refl
replay-append step (e ∷ es) es' s = replay-append step es es' (step e s)

-- The surface's picture of a state.
abbrev pub Follows : Deriver → Deriver × List Event → Type 0
Follows d (d', es) =
    (d'.monitor_key ≡ replay follow_key es d.monitor_key)
    × (d'.no_internet ≡ replay follow_offline es d.no_internet)
    × ((id : String)
        → is_some (lookup id d'.vpn_up) ≡ replay (follow_vpn id) es (is_some (lookup id d.vpn_up)))

-- A VPN is kept under its own ID.
abbrev pub HasIds : Assoc Vpn → Type 0
HasIds = All (λ e. e.1.id ≡ e.0)

pub Follows-append :
    (d : Deriver) (r r' : Deriver × List Event)
    → Follows d r
    → Follows r.0 r'
    → Follows d (r'.0, r.1 ++ r'.1)
Follows-append d r r' (k, o, v) (k', o', v') = (
  rw replay-append (k' ∙ ap (replay follow_key r'.1) k),
  rw replay-append (o' ∙ ap (replay follow_offline r'.1) o),
  λ id. rw replay-append (v' id ∙ ap (replay (follow_vpn id) r'.1) (v id)),
)

pub flush_disconnect-Follows : (now : ℕ) (d : Deriver) → Follows d (flush_disconnect now d)
unfolding flush_disconnect disconnected_event
flush_disconnect-Follows now d = (ground arith, ground arith, λ id. ground arith)

pub flush_no_internet-Follows : (now : ℕ) (d : Deriver) → Follows d (flush_no_internet now d)
unfolding flush_no_internet no_internet_event
flush_no_internet-Follows now d = (ground arith, ground arith, λ id. ground arith)

pub flush-Follows : (now : ℕ) (d : Deriver) → Follows d (flush now d)
unfolding flush
flush-Follows now d =
    Follows-append d (flush_disconnect now d) (flush_no_internet now (flush_disconnect now d).0)
      (flush_disconnect-Follows now d) (flush_no_internet-Follows now (flush_disconnect now d).0)

pub switch_primary-Follows :
    (was cur : Option ActiveConnection) (key : String) (now : ℕ) (d : Deriver)
    → Follows d (switch_primary was cur key now d)
unfolding switch_primary connected_event
switch_primary-Follows none none key now d = (refl, refl, λ id. refl)
switch_primary-Follows none (some c) key now d = (ground arith, ground arith, λ id. ground arith)
switch_primary-Follows (some p) none key now d = (refl, refl, λ id. refl)
switch_primary-Follows (some p) (some c) key now d =
    (ground arith, ground arith, λ id. ground arith)

pub switch_connectivity-Follows :
    (conn : Connectivity) (now : ℕ) (d : Deriver) → Follows d (switch_connectivity conn now d)
unfolding switch_connectivity restored_event
switch_connectivity-Follows conn now d = (ground arith, ground arith, λ id. ground arith)

-- A connected VPN of the list has the ID.
abbrev pub has_connected : String → List Vpn → Bool
has_connected id [] = false
has_connected id (v ∷ vs) = (is_connected v && str_eq v.id id) || has_connected id vs

pub lookup-vpns_seen :
    (id : String) (vs : List Vpn) (seen : Assoc Vpn)
    → is_some (lookup id (vpns_seen vs seen)) ≡ (is_some (lookup id seen) || has_connected id vs)
unfolding vpns_seen
lookup-vpns_seen id [] seen = ground arith
lookup-vpns_seen id (v ∷ vs) seen =
    lookup-vpns_seen id vs _ ∙ ground (arith, lookup-insert v.id id v seen)

pub lookup-vpns_seen-nil :
    (id : String) (vs : List Vpn) → is_some (lookup id (vpns_seen vs [])) ≡ has_connected id vs
unfolding lookup
lookup-vpns_seen-nil id vs = lookup-vpns_seen id vs []

pub replay-vpns_up :
    (id key : String) (now : ℕ) (up : Assoc Vpn) (vs : List Vpn) (b : Bool)
    → replay (follow_vpn id) (vpns_up key now up vs) b
      ≡ (b || (has_connected id vs && not (is_some (lookup id up))))
unfolding vpns_up vpn_event lookup
replay-vpns_up id key now up [] b = ground arith
replay-vpns_up id key now up (v ∷ vs) b = ground (
  arith,
  eq_iff v.id id,
  replay-vpns_up id key now up vs b,
  replay-vpns_up id key now up vs (if str_eq v.id id then true else b),
)

pub replay_key-vpns_up :
    (key : String) (now : ℕ) (up : Assoc Vpn) (vs : List Vpn) (k : String)
    → replay follow_key (vpns_up key now up vs) k ≡ k
unfolding vpns_up vpn_event
replay_key-vpns_up key now up [] k = refl
replay_key-vpns_up key now up (v ∷ vs) k = ground (arith, replay_key-vpns_up key now up vs k)

pub replay_key-vpns_down :
    (key : String) (now : ℕ) (seen up : Assoc Vpn) (k : String)
    → replay follow_key (vpns_down key now seen up) k ≡ k
unfolding vpns_down vpn_event
replay_key-vpns_down key now seen [] k = refl
replay_key-vpns_down key now seen ((i, v) ∷ up) k =
    ground (arith, replay_key-vpns_down key now seen up k)

pub replay_offline-vpns_up :
    (key : String) (now : ℕ) (up : Assoc Vpn) (vs : List Vpn) (b : Bool)
    → replay follow_offline (vpns_up key now up vs) b ≡ b
unfolding vpns_up vpn_event
replay_offline-vpns_up key now up [] b = refl
replay_offline-vpns_up key now up (v ∷ vs) b =
    ground (arith, replay_offline-vpns_up key now up vs b)

pub replay_offline-vpns_down :
    (key : String) (now : ℕ) (seen up : Assoc Vpn) (b : Bool)
    → replay follow_offline (vpns_down key now seen up) b ≡ b
unfolding vpns_down vpn_event
replay_offline-vpns_down key now seen [] b = refl
replay_offline-vpns_down key now seen ((i, v) ∷ up) b =
    ground (arith, replay_offline-vpns_down key now seen up b)

pub replay-vpns_down :
    (id key : String) (now : ℕ) (seen up : Assoc Vpn) (b : Bool)
    → HasIds up
    → replay (follow_vpn id) (vpns_down key now seen up) b
      ≡ (if is_some (lookup id up) && not (is_some (lookup id seen)) then false else b)
unfolding vpns_down vpn_event lookup
replay-vpns_down id key now seen [] b h = ground arith
replay-vpns_down id key now seen ((i, v) ∷ up) b h = ground (
  arith,
  h.0,
  eq_iff v.id id,
  eq_iff i id,
  replay-vpns_down id key now seen up b h.1,
  replay-vpns_down id key now seen up (if str_eq v.id id then false else b) h.1,
)

pub replay-update_vpns :
    (id key : String) (now : ℕ) (up : Assoc Vpn) (vs : List Vpn)
    → HasIds up
    → is_some (lookup id (vpns_seen vs []))
      ≡ replay
          (follow_vpn id)
          (vpns_up key now up vs ++ vpns_down key now (vpns_seen vs []) up)
          (is_some (lookup id up))
replay-update_vpns id key now up vs h = ground (
  arith,
  replay-append (follow_vpn id) (vpns_up key now up vs) (vpns_down key now (vpns_seen vs []) up)
      (is_some (lookup id up)),
  replay-vpns_up id key now up vs (is_some (lookup id up)),
  replay-vpns_down id key now (vpns_seen vs []) up
      (is_some (lookup id up) || (has_connected id vs && not (is_some (lookup id up)))) h,
  lookup-vpns_seen-nil id vs,
)

-- ===== src/Daemon/Deriver/Machine.antt =====
-- internal/daemon/derive.go: `apply`, `flush` and `nextDeadline`. Each returns the new state beside
-- the events; the stages of `apply` are functions of their own.
use better_nm.Prelude.{
  ℕ, ◌+◌, String, List, [], ◌∷◌, ◌++◌, Bool, true, false, not, ◌&&◌, ◌||◌, Option, none, some,
  Assoc, lookup, insert, is_some, str_eq, ltb, leb, ◌==◌, if◌then◌else◌, ◌≡◌, ap,
}
use better_nm.Core.Event.{Event, vpn_up, vpn_down}
use better_nm.Core.Status.{ActiveConnection, Connectivity, network_key}
use better_nm.Core.Vpn.{Vpn}
use better_nm.Daemon.Deriver.State.{
  View, Deriver, PendingDisconnect, connected_primary, is_bad, is_full, is_connected, gateway_of,
  set_primary, reset_connectivity,
}
use better_nm.Daemon.Deriver.Events.{
  connected_event, disconnected_event, no_internet_event, restored_event, vpn_event,
}

-- A timer that was set at `start` and runs for `length` has expired: `!now.Before(start.Add(length))`.
abbrev pub expired : ℕ → ℕ → ℕ → Bool
expired start duration now = leb (start + duration) now

-- The first timer of `flush`.
unfoldable pub flush_disconnect : ℕ → Deriver → Deriver × List Event
unfolding reset_connectivity
flush_disconnect now d = elim d.pending_disc [
  | none ↦ (d, [])
  | some pd ↦
      if expired pd.at d.debounce now
      then (
        reset_connectivity
            (record d { pending_disc = none; monitor_key = ""; monitor_gateway = "" }),
        disconnected_event pd now ∷ [],
      )
      else (d, [])
]

-- The second one.
unfoldable pub flush_no_internet : ℕ → Deriver → Deriver × List Event
flush_no_internet now d = elim d.pending_no_internet [
  | none ↦ (d, [])
  | some pn ↦
      if is_some d.primary && expired pn.since d.grace now
      then (
        record d { pending_no_internet = none; no_internet = true },
        no_internet_event d.primary_name d.primary_key pn.conn now ∷ [],
      )
      else (d, [])
]

unfoldable pub flush : ℕ → Deriver → Deriver × List Event
flush now d =
    let (d', first) = flush_disconnect now d in
    let (d'', second) = flush_no_internet now d' in (d'', first ++ second)

-- The two parts of `nextDeadline`; 0 is the zero time, and the result without its Boolean.
unfoldable pub disconnect_deadline : Deriver → ℕ
disconnect_deadline d = elim d.pending_disc [ none ↦ 0 | some pd ↦ pd.at + d.debounce ]

unfoldable pub next_deadline : Deriver → Option ℕ
unfolding disconnect_deadline
next_deadline d =
    let t = disconnect_deadline d in
    let t' : ℕ = elim d.pending_no_internet [
      | none ↦ t
      | some pn ↦
          if is_some d.primary && (t == 0 || ltb (pn.since + d.grace) t)
          then pn.since + d.grace
          else t
    ] in
    if t' == 0 then none else some t'

-- The first loop over the VPNs, before any view was seen.
unfoldable pub initial_vpns : List Vpn → Assoc Vpn → Assoc Vpn
initial_vpns [] up = up
initial_vpns (v ∷ vs) up = initial_vpns vs (if is_connected v then insert v.id v up else up)

-- `if !d.initialized`, without the call of `flush`
unfoldable pub initialize : View → Option ActiveConnection → String → ℕ → Deriver → Deriver
unfolding set_primary gateway_of initial_vpns
initialize v cur key now d =
    let d' = set_primary cur key (record d { initialized = true }) in
    record d' {
      monitor_key = key;
      monitor_gateway = gateway_of cur;
      vpn_up = initial_vpns v.vpns d.vpn_up;
      pending_no_internet =
          if is_some cur && is_bad v.status.connectivity
          then some (record { conn = v.status.connectivity; since = now })
          else d.pending_no_internet;
    }

-- A network comes up that the user has to hear of.
unfoldable pub enter : ActiveConnection → String → ℕ → Deriver → Deriver × List Event
unfolding set_primary reset_connectivity gateway_of
enter cur key now d =
    let d' = reset_connectivity (set_primary (some cur) key d) in
    (
      record d' { monitor_key = key; monitor_gateway = gateway_of (some cur) },
      connected_event cur key now ∷ [],
    )

abbrev pub same_key : Option PendingDisconnect → String → Bool
same_key none key = false
same_key (some pd) key = str_eq pd.key key

-- The first `switch`: the primary that was, and the one that is.
unfoldable pub switch_primary :
    Option ActiveConnection → Option ActiveConnection → String → ℕ → Deriver → Deriver × List Event
unfolding enter set_primary gateway_of
switch_primary none none key now d = (d, [])
switch_primary none (some cur) key now d =
    let d' = record d { pending_disc = none } in
    if same_key d.pending_disc key
    then (set_primary (some cur) key d', [])
    else enter cur key now d'
switch_primary (some p) none key now d = (
  set_primary none "" (record d {
    pending_disc =
        some
          (record { key = d.primary_key; name = d.primary_name; uuid = p.profile_uuid; at = now });
  }),
  [],
)
switch_primary (some p) (some cur) key now d =
    if not (str_eq cur.profile_uuid p.profile_uuid)
    then enter cur key now (record d { pending_disc = none })
    else let gw = gateway_of (some cur) in
      let d' = set_primary (some cur) key d in
      (
        if not (str_eq gw "") && str_eq d.monitor_key key
            then record d' { monitor_gateway = gw }
            else d',
        [],
      )

-- The second `switch`, under `if d.primary != nil`
unfoldable pub switch_connectivity : Connectivity → ℕ → Deriver → Deriver × List Event
switch_connectivity conn now d =
    if not (is_some d.primary)
    then (d, [])
    else if is_bad conn && not d.no_internet
    then (
      record d {
        pending_no_internet = elim d.pending_no_internet [
          | none ↦ some (record { conn = conn; since = now })
          | some pn ↦ some (record pn { conn = conn })
        ];
      },
      [],
    )
    else if is_full conn
    then (
      record d { pending_no_internet = none; no_internet = false },
      if d.no_internet then restored_event d.primary_name d.primary_key now ∷ [] else [],
    )
    else (d, [])

-- The loop over the VPNs of the view: `seen`, and the events.
unfoldable pub vpns_seen : List Vpn → Assoc Vpn → Assoc Vpn
vpns_seen [] seen = seen
vpns_seen (v ∷ vs) seen = vpns_seen vs (if is_connected v then insert v.id v seen else seen)

unfoldable pub vpns_up : String → ℕ → Assoc Vpn → List Vpn → List Event
vpns_up key now up [] = []
vpns_up key now up (v ∷ vs) =
    let rest = vpns_up key now up vs in
    if is_connected v && not (is_some (lookup v.id up))
    then vpn_event vpn_up v key now ∷ rest
    else rest

-- The loop over `d.vpnUp`
unfoldable pub vpns_down : String → ℕ → Assoc Vpn → Assoc Vpn → List Event
vpns_down key now seen [] = []
vpns_down key now seen ((id, v) ∷ up) =
    let rest = vpns_down key now seen up in
    if is_some (lookup id seen) then rest else vpn_event vpn_down v key now ∷ rest

unfoldable pub update_vpns : List Vpn → ℕ → Deriver → Deriver × List Event
unfolding vpns_seen vpns_up vpns_down
update_vpns vpns now d =
    let seen = vpns_seen vpns [] in
    (
      record d { vpn_up = seen },
      vpns_up d.primary_key now d.vpn_up vpns ++ vpns_down d.primary_key now seen d.vpn_up,
    )

-- `apply` for a deriver that has seen a view.
unfoldable pub advance :
    View → Option ActiveConnection → String → ℕ → Deriver → Deriver × List Event
advance v cur key now d =
    let (d₁, e₁) = switch_primary d.primary cur key now d in
    let (d₂, e₂) = switch_connectivity v.status.connectivity now d₁ in
    let (d₃, e₃) = update_vpns v.vpns now d₂ in
    let (d₄, e₄) = flush now d₃ in (d₄, e₁ ++ (e₂ ++ (e₃ ++ e₄)))

unfoldable pub apply : View → ℕ → Deriver → Deriver × List Event
apply v now d =
    let cur = connected_primary v.status in
    let key = network_key cur v.profiles in
    if d.initialized then advance v cur key now d else flush now (initialize v cur key now d)

-- `apply` once a view was seen.
pub apply-advance :
    (v : View) (now : ℕ) (d : Deriver)
    → d.initialized ≡ true
    → let cur = connected_primary v.status in
      apply v now d ≡ advance v cur (network_key cur v.profiles) now d
unfolding apply
apply-advance v now d h =
    let cur = connected_primary v.status in
    let key = network_key cur v.profiles in
    ap (λ b. if b then advance v cur key now d else flush now (initialize v cur key now d)) h

-- `apply` at the first view.
pub apply-initialize :
    (v : View) (now : ℕ) (d : Deriver)
    → d.initialized ≡ false
    → let cur = connected_primary v.status in
      apply v now d ≡ flush now (initialize v cur (network_key cur v.profiles) now d)
unfolding apply
apply-initialize v now d h =
    let cur = connected_primary v.status in
    let key = network_key cur v.profiles in
    ap (λ b. if b then advance v cur key now d else flush now (initialize v cur key now d)) h

-- ===== src/Daemon/Deriver/Follow.antt =====
-- A surface that replays the deriver's events knows the network that is monitored, whether a
-- no-internet is outstanding, and which VPNs are up.
use mathlib.Core.Path.{subst}
use better_nm.Prelude.{
  ℕ, String, List, [], ◌∷◌, ◌++◌, true, Option, none, some, Assoc, insert, ◌≡◌, refl, sym, ap, ◌∙◌,
  arith, eq_iff,
}
use better_nm.Core.Status.{ActiveConnection, Connectivity}
use better_nm.Core.Vpn.{Vpn}
use better_nm.Daemon.Deriver.State.{View, Deriver}
use better_nm.Daemon.Deriver.Machine.{
  flush_disconnect, flush_no_internet, flush, initial_vpns, initialize, switch_primary,
  switch_connectivity, vpns_seen, vpns_up, vpns_down, update_vpns, advance,
}
use better_nm.Daemon.Deriver.Replay.{
  follow_key, follow_offline, replay, replay-append, Follows, HasIds, Follows-append, flush-Follows,
  switch_primary-Follows, switch_connectivity-Follows, replay_key-vpns_up, replay_key-vpns_down,
  replay_offline-vpns_up, replay_offline-vpns_down, replay-update_vpns,
}

update_vpns-Follows :
    (vpns : List Vpn) (now : ℕ) (d : Deriver) → HasIds d.vpn_up → Follows d (update_vpns vpns now d)
unfolding update_vpns
update_vpns-Follows vpns now d h =
    let seen = vpns_seen vpns [] in
    let ups = vpns_up d.primary_key now d.vpn_up vpns in
    let downs = vpns_down d.primary_key now seen d.vpn_up in
    (
      sym (
          replay-append follow_key ups downs d.monitor_key
          ∙ ap (replay follow_key downs) (replay_key-vpns_up _ now d.vpn_up vpns d.monitor_key)
          ∙ replay_key-vpns_down _ now seen d.vpn_up d.monitor_key),
      sym (
          replay-append follow_offline ups downs d.no_internet
          ∙ ap (replay follow_offline downs)
              (replay_offline-vpns_up _ now d.vpn_up vpns d.no_internet)
          ∙ replay_offline-vpns_down _ now seen d.vpn_up d.no_internet),
      λ id. replay-update_vpns id d.primary_key now d.vpn_up vpns h,
    )

insert-HasIds : (v : Vpn) (m : Assoc Vpn) → HasIds m → HasIds (insert v.id v m)
unfolding insert
insert-HasIds v [] h = (refl, tt)
insert-HasIds v ((i, w) ∷ m) h = ground (arith, eq_iff i v.id, insert-HasIds v m h.1)

vpns_seen-HasIds : (vs : List Vpn) (seen : Assoc Vpn) → HasIds seen → HasIds (vpns_seen vs seen)
unfolding vpns_seen
vpns_seen-HasIds [] seen h = h
vpns_seen-HasIds (v ∷ vs) seen h = vpns_seen-HasIds vs _ (ground (arith, insert-HasIds v seen h))

update_vpns-HasIds :
    (vpns : List Vpn) (now : ℕ) (d : Deriver) → HasIds (update_vpns vpns now d).0.vpn_up
unfolding update_vpns
update_vpns-HasIds vpns now d = vpns_seen-HasIds vpns [] tt

pub initial_vpns-HasIds : (vs : List Vpn) (up : Assoc Vpn) → HasIds up → HasIds (initial_vpns vs up)
unfolding initial_vpns
initial_vpns-HasIds [] up h = h
initial_vpns-HasIds (v ∷ vs) up h = initial_vpns-HasIds vs _ (ground (arith, insert-HasIds v up h))

-- No stage but `update_vpns` touches the VPNs.
switch_primary-vpns :
    (was cur : Option ActiveConnection) (key : String) (now : ℕ) (d : Deriver)
    → (switch_primary was cur key now d).0.vpn_up ≡ d.vpn_up
unfolding switch_primary
switch_primary-vpns was cur key now d = ground arith

switch_connectivity-vpns :
    (conn : Connectivity) (now : ℕ) (d : Deriver)
    → (switch_connectivity conn now d).0.vpn_up ≡ d.vpn_up
unfolding switch_connectivity
switch_connectivity-vpns conn now d = ground arith

pub flush-vpns : (now : ℕ) (d : Deriver) → (flush now d).0.vpn_up ≡ d.vpn_up
unfolding flush flush_disconnect flush_no_internet
flush-vpns now d = ground arith

pub advance-Follows :
    (v : View) (cur : Option ActiveConnection) (key : String) (now : ℕ) (d : Deriver)
    → HasIds d.vpn_up
    → Follows d (advance v cur key now d) × HasIds (advance v cur key now d).0.vpn_up
unfolding advance
advance-Follows v cur key now d h =
    let r₁ = switch_primary d.primary cur key now d in
    let r₂ = switch_connectivity v.status.connectivity now r₁.0 in
    let r₃ = update_vpns v.vpns now r₂.0 in
    let r₄ = flush now r₃.0 in
    let same : r₂.0.vpn_up ≡ d.vpn_up =
      switch_connectivity-vpns v.status.connectivity now r₁.0
      ∙ switch_primary-vpns d.primary cur key now d in
    let h₂ : HasIds r₂.0.vpn_up = subst HasIds (sym same) h in
    (
      Follows-append d r₁ (r₄.0, r₂.1 ++ (r₃.1 ++ r₄.1))
          (switch_primary-Follows d.primary cur key now d)
          (Follows-append r₁.0 r₂ (r₄.0, r₃.1 ++ r₄.1)
            (switch_connectivity-Follows v.status.connectivity now r₁.0)
            (Follows-append r₂.0 r₃ r₄ (update_vpns-Follows v.vpns now r₂.0 h₂)
              (flush-Follows now r₃.0))),
      subst HasIds (sym (flush-vpns now r₃.0)) (update_vpns-HasIds v.vpns now r₂.0),
    )

pub advance-initialized :
    (v : View) (cur : Option ActiveConnection) (key : String) (now : ℕ) (d : Deriver)
    → (advance v cur key now d).0.initialized ≡ d.initialized
unfolding advance switch_primary switch_connectivity update_vpns flush flush_disconnect
    flush_no_internet
advance-initialized v cur key now d = ground arith

pub flush-initialized : (now : ℕ) (d : Deriver) → (flush now d).0.initialized ≡ d.initialized
unfolding flush flush_disconnect flush_no_internet
flush-initialized now d = ground arith

pub initialize-initialized :
    (v : View) (cur : Option ActiveConnection) (key : String) (now : ℕ) (d : Deriver)
    → (initialize v cur key now d).initialized ≡ true
unfolding initialize
initialize-initialized v none key now d = refl
initialize-initialized v (some c) key now d = refl

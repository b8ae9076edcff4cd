-- ===== src/Nm/Reasons.antt =====
-- internal/nm/mapping.go: the states of NetworkManager and its reasons as words.
use better_nm.Prelude.{ℕ, String, Bool, ◌||◌, ◌==◌, if◌then◌else◌}
use better_nm.Core.Status.{
  ActiveState, activating, activated, deactivating, deactivated, Connectivity, portal, limited,
  full,
}

unfoldable active_state : ℕ → ActiveState
active_state s =
    if s == 1
    then activating
    else if s == 2
    then activated
    else if s == 3
    then deactivating
    else if s == 4
    then deactivated
    else ActiveState.unknown

unfoldable nm_state_name : ℕ → String
nm_state_name s =
    if s == 0
    then "unknown"
    else if s == 10
    then "asleep"
    else if s == 20
    then "disconnected"
    else if s == 30
    then "disconnecting"
    else if s == 40
    then "connecting"
    else if s == 50
    then "connected-local"
    else if s == 60
    then "connected-site"
    else if s == 70
    then "connected-global"
    else "unknown"

unfoldable pub connectivity : ℕ → Connectivity
connectivity c =
    if c == 1
    then Connectivity.none
    else if c == 2
    then portal
    else if c == 3
    then limited
    else if c == 4
    then full
    else Connectivity.unknown

unfoldable vpn_state_name : ℕ → String
vpn_state_name s =
    if s == 1
    then "prepare"
    else if s == 2
    then "need-auth"
    else if s == 3
    then "connect"
    else if s == 4
    then "ip-config-get"
    else if s == 5
    then "activated"
    else if s == 6
    then "failed"
    else if s == 7
    then "disconnected"
    else "unknown"

unfoldable active_reason_text : ℕ → String
active_reason_text r =
    if (r == 0) || (r == 1)
    then "activation failed"
    else if r == 2
    then "disconnected by user"
    else if r == 3
    then "device disconnected"
    else if r == 4
    then "VPN service stopped"
    else if r == 5
    then "invalid IP configuration"
    else if r == 6
    then "connect timed out"
    else if r == 7
    then "VPN service start timed out"
    else if r == 8
    then "VPN service failed to start"
    else if r == 9
    then "authentication failed (no valid secrets)"
    else if r == 10
    then "authentication failed (login rejected)"
    else if r == 11
    then "profile was removed"
    else if r == 12
    then "a dependency failed"
    else if r == 13
    then "device could not be created"
    else if r == 14
    then "device removed"
    else "activation failed"

unfoldable active_reason_is_auth : ℕ → Bool
active_reason_is_auth r = (r == 9) || (r == 10)

unfoldable dev_reason_text : ℕ → String
dev_reason_text r =
    if r == 7
    then "authentication failed: NetworkManager needed new secrets (wrong password?)"
    else if r == 8
    then "authentication failed: the access point disconnected during association (wrong password?)"
    else if r == 9
    then "authentication failed: the supplicant rejected the configuration"
    else if r == 10
    then "authentication failed: the supplicant failed"
    else if r == 11
    then "authentication failed: the supplicant timed out (wrong password or weak signal)"
    else if r == 53
    then "the network was not found"
    else ""

unfoldable dev_reason_is_auth : ℕ → Bool
dev_reason_is_auth r = (r == 7) || (r == 8) || (r == 9) || (r == 10) || (r == 11)

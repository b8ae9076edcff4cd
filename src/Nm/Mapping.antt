-- ===== src/Nm/Mapping.antt =====
-- internal/nm/mapping.go: NetworkManager's numbers and names as the types of the domain model.
use Prim.Native.Nat.{bit_or}
use better_nm.Prelude.{
  ℕ, ◌+◌, ◌-◌, ◌*◌, ◌/◌, ◌≤◌, String, List, [], ◌∷◌, Bool, true, false, ◌&&◌, ◌||◌, ◌==◌, ltb, leb,
  any, is_some, str_eq, if◌then◌else◌, ◌≡◌, refl, arith,
}
use better_nm.Core.Device.{
  DeviceKind, ethernet, bridge, vlan, tun, veth, loopback, DeviceState, unmanaged, unavailable,
  disconnected, connecting, connected, external, failed, WifiSecurity, open_network, owe, wep,
  wpa_psk, sae, wpa_eap,
}
use better_nm.Core.Status.{ProfileType}
use better_nm.Infra.Classify.{DeviceClass, physical, infra, strip, is_docker_bridge}
use better_nm.Infra.Networks.{flag}
use better_nm.Nm.Consts.{type_wifi, type_ethernet, type_wireguard, type_vpn, type_bridge}

unfoldable device_kind : ℕ → DeviceKind
device_kind t =
    if t == 1
    then ethernet
    else if t == 2
    then DeviceKind.wifi
    else if t == 13
    then bridge
    else if t == 11
    then vlan
    else if t == 16
    then tun
    else if t == 20
    then veth
    else if t == 29
    then DeviceKind.wireguard
    else if t == 32
    then loopback
    else DeviceKind.other

unfoldable device_state : ℕ → Bool → DeviceState
device_state s is_external =
    if s == 10
    then unmanaged
    else if (s == 0) || (s == 20)
    then unavailable
    else if (s == 30) || (s == 110)
    then disconnected
    else if leb 40 s && leb s 90
    then connecting
    else if s == 100
    then if is_external then external else connected
    else if s == 120
    then failed
    else unavailable

abbrev is_loopback : DeviceKind → Bool
is_loopback loopback = true
is_loopback _ = false

abbrev is_hardware : DeviceKind → Bool
is_hardware DeviceKind.wifi = true
is_hardware ethernet = true
is_hardware _ = false

-- `probe` says whether sysfs knows the interface, and whether it has a device link.
unfoldable device_class : String → DeviceKind → (String → Bool × Bool) → DeviceClass
device_class name kind probe =
    if is_loopback kind || str_eq name "lo"
    then DeviceClass.loopback
    else if (probe name).0
    then if (probe name).1 then physical else infra
    else if is_hardware kind
    then physical
    else infra

abbrev starts : String → List String → Bool
starts name prefixes = any (λ p. is_some (strip p name)) prefixes

abbrev is_veth : DeviceKind → Bool
is_veth veth = true
is_veth _ = false

abbrev is_wireguard : DeviceKind → Bool
is_wireguard DeviceKind.wireguard = true
is_wireguard _ = false

unfoldable device_owner : String → DeviceKind → String
unfolding is_docker_bridge strip
device_owner name kind =
    if str_eq name "docker0" || is_docker_bridge name
    then "docker"
    else if starts name ("podman" ∷ [])
    then "podman"
    else if starts name ("virbr" ∷ ("vnet" ∷ []))
    then "libvirt"
    else if starts name ("incusbr" ∷ ("lxdbr" ∷ ("lxcbr" ∷ [])))
    then "incus"
    else if starts name ("ve-" ∷ ("vb-" ∷ ("vz-" ∷ [])))
    then "nspawn"
    else if str_eq name "cni0" || starts name ("flannel" ∷ ("cali" ∷ []))
    then "k8s"
    else if str_eq name "tailscale0"
    then "tailscale"
    else if starts name ("veth" ∷ []) || is_veth kind
    then "veth"
    else if starts name ("wg" ∷ []) || is_wireguard kind
    then "wireguard"
    else ""

-- The order of the tests on the flags of an access point.
unfoldable ap_security : ℕ → ℕ → ℕ → WifiSecurity
ap_security flags wpa rsn =
    let all = bit_or wpa rsn in
    if flag all 512 || flag all 8192
    then wpa_eap
    else if flag all 256
    then wpa_psk
    else if flag all 1024
    then sae
    else if flag all 2048 || flag all 4096
    then owe
    else if flag flags 1 && (all == 0)
    then wep
    else if flag all 1 || flag all 2 || flag all 16 || flag all 32
    then wep
    else open_network

unfoldable pub key_mgmt_for : WifiSecurity → String
key_mgmt_for wpa_psk = "wpa-psk"
key_mgmt_for sae = "sae"
key_mgmt_for owe = "owe"
key_mgmt_for wep = "none"
key_mgmt_for wpa_eap = "wpa-eap"
key_mgmt_for open_network = ""

unfoldable pub profile_security : String → WifiSecurity
profile_security key_mgmt =
    if str_eq key_mgmt ""
    then open_network
    else if str_eq key_mgmt "none"
    then wep
    else if str_eq key_mgmt "wpa-psk"
    then wpa_psk
    else if str_eq key_mgmt "sae"
    then sae
    else if str_eq key_mgmt "owe"
    then owe
    else if str_eq key_mgmt "wpa-eap"
        || str_eq key_mgmt "wpa-eap-suite-b-192"
        || str_eq key_mgmt "ieee8021x"
    then wpa_eap
    else wpa_psk

-- A profile that is created for a network is read back with its security.
profile_security-key_mgmt_for : (s : WifiSecurity) → profile_security (key_mgmt_for s) ≡ s
unfolding profile_security key_mgmt_for
profile_security-key_mgmt_for open_network = refl
profile_security-key_mgmt_for owe = refl
profile_security-key_mgmt_for wep = refl
profile_security-key_mgmt_for wpa_psk = refl
profile_security-key_mgmt_for sae = refl
profile_security-key_mgmt_for wpa_eap = refl

unfoldable wifi_channel : ℕ → ℕ × String
wifi_channel freq =
    if freq == 2484
    then (14, "2.4")
    else if leb 2412 freq && leb freq 2472
    then ((freq - 2407) / 5, "2.4")
    else if leb 5955 freq && leb freq 7115
    then ((freq - 5950) / 5, "6")
    else if freq == 5935
    then (2, "6")
    else if leb 5000 freq && ltb freq 5935
    then ((freq - 5000) / 5, "5")
    else if leb 4900 freq && ltb freq 5000
    then ((freq - 4000) / 5, "5")
    else (0, "")

-- The channels of each band by their centre frequencies.
wifi_channel_lem :
    (n : ℕ)
    → (1 ≤ n → n ≤ 13 → wifi_channel (2407 + 5 * n) ≡ (n, "2.4"))
      × (1 ≤ n → n ≤ 186 → wifi_channel (5000 + 5 * n) ≡ (n, "5"))
      × (1 ≤ n → n ≤ 233 → wifi_channel (5950 + 5 * n) ≡ (n, "6"))
unfolding wifi_channel
wifi_channel_lem n = (λ h k. ground arith, λ h k. ground arith, λ h k. ground arith)

unfoldable pub profile_type : String → ProfileType
profile_type t =
    if str_eq t type_wifi
    then ProfileType.wifi
    else if str_eq t type_ethernet
    then ProfileType.ethernet
    else if str_eq t type_wireguard
    then ProfileType.wireguard
    else if str_eq t type_vpn
    then ProfileType.vpn
    else if str_eq t type_bridge
    then ProfileType.bridge
    else ProfileType.other

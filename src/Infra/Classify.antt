-- ===== src/Infra/Classify.antt =====
-- internal/infra/classify.go: hardware or plumbing, and who owns it.
use Prim.Native.Char.{code}
use better_nm.Prelude.{
  ℕ, zero, suc, String, List, [], ◌∷◌, Bool, true, false, ◌&&◌, ◌||◌, Option, none, some, str_eq,
  leb, ◌==◌, if◌then◌else◌, is_some, any,
}

pub data DeviceClass : Type 0 where
  physical infra loopback : DeviceClass

-- What follows a prefix.
unfoldable pub strip : String → String → Option String
strip String.[] s = some s
strip (String.◌∷◌ p ps) String.[] = none
strip (String.◌∷◌ p ps) (String.◌∷◌ c s) = if code p == code c then strip ps s else none

abbrev is_hex : ℕ → Bool
is_hex c = (leb 48 c && leb c 57) || (leb 97 c && leb c 102)

-- So many hexadecimal digits and no more.
unfoldable pub hex_run : ℕ → String → Bool
hex_run zero String.[] = true
hex_run zero (String.◌∷◌ c s) = false
hex_run (suc n) String.[] = false
hex_run (suc n) (String.◌∷◌ c s) = is_hex (code c) && hex_run n s

-- `dockerBridgeRe.MatchString`
unfoldable pub is_docker_bridge : String → Bool
unfolding strip hex_run
is_docker_bridge name = elim (strip "br-" name) [ none ↦ false | some rest ↦ hex_run 12 rest ]

abbrev pub has : String → List String → Bool
has name prefixes = any (λ p. is_some (strip p name)) prefixes

unfoldable pub owner : String → String → String
unfolding is_docker_bridge strip
owner name kind =
    if str_eq name "docker0" || is_docker_bridge name
    then "docker"
    else if has name ("podman" ∷ ("cni-podman" ∷ []))
    then "podman"
    else if has name ("virbr" ∷ ("vnet" ∷ []))
    then "libvirt"
    else if has name ("incusbr" ∷ ("lxdbr" ∷ ("lxcbr" ∷ [])))
    then "incus"
    else if has name ("ve-" ∷ ("vb-" ∷ ("vz-" ∷ [])))
    then "nspawn"
    else if str_eq name "cni0" || has name ("flannel" ∷ ("cali" ∷ ("kube" ∷ [])))
    then "k8s"
    else if has name ("tailscale" ∷ []) || (has name ("ts" ∷ []) && str_eq kind "tun")
    then "tailscale"
    else if has name ("wg" ∷ []) || str_eq kind "wireguard"
    then "wireguard"
    else if has name ("veth" ∷ [])
    then "veth"
    else ""

unfoldable pub classify : String → String → Bool → DeviceClass × String
unfolding owner
classify name kind has_sysfs_device =
    if str_eq name "lo" || str_eq kind "loopback"
    then (loopback, "loopback")
    else if has_sysfs_device
    then (physical, "")
    else (infra, owner name kind)

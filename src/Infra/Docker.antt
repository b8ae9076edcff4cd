-- ===== src/Infra/Docker.antt =====
-- The bridge of a Docker network.
use text.Mathlib.TextLemmas.{cons-append, nil-append}
use better_nm.Prelude.{
  ap, ◌∙◌, ℕ, zero, suc, ◌≤◌, String, true, some, lookup, str_eq, ◌+s◌, ◌≡◌, refl, arith,
  Bool-cases, inl, inr,
}
use better_nm.Infra.Classify.{strip, hex_run, is_docker_bridge, owner}
use better_nm.Infra.Networks.{DockerNetwork, take_exact, option_text, bridge_name}

take_exact-hex_run :
    (m n : ℕ) (s : String)
    → m ≤ n
    → hex_run n s ≡ true
    → (t : String) × (take_exact m s ≡ some t) × (hex_run m t ≡ true)
unfolding take_exact hex_run
take_exact-hex_run zero n s le h = ("", refl, refl)
take_exact-hex_run (suc m) zero s le h = absurd (omega (arith, le))
take_exact-hex_run (suc m) (suc n) String.[] le h = absurd (ground (arith, h))
take_exact-hex_run (suc m) (suc n) (String.◌∷◌ c s) le h =
    let (t, e, run) = take_exact-hex_run m n s (omega (arith, le)) (ground (arith, h)) in
    (String.◌∷◌ c t, rw e refl, ground (arith, h, run))

br_text : (t : String) → "br-" +s t ≡ String.◌∷◌ "b" (String.◌∷◌ "r" (String.◌∷◌ "-" t))
br_text t =
    cons-append "b" "r-" t
    ∙ ap (String.◌∷◌ "b") (
        cons-append "r" "-" t
        ∙ ap (String.◌∷◌ "r") (cons-append "-" "" t ∙ ap (String.◌∷◌ "-") (nil-append t)))

docker_bridge : (t : String) → hex_run 12 t ≡ true → is_docker_bridge ("br-" +s t) ≡ true
unfolding is_docker_bridge strip
docker_bridge t h = rw (br_text t) h

named : (t : String) (kind : String) → hex_run 12 t ≡ true → owner ("br-" +s t) kind ≡ "docker"
unfolding owner
named t kind h = elim (Bool-cases (str_eq ("br-" +s t) "docker0")) [
  | inl same ↦ rw same refl
  | inr other ↦ rw (other, docker_bridge t h) refl
]

-- The bridge that Docker creates for a network whose ID is 64 hexadecimal digits, and whose options
-- do not name a bridge, is classified as Docker's by its name alone.
pub bridge_name-owner :
    (n : DockerNetwork) (kind : String)
    → option_text (lookup "com.docker.network.bridge.name" n.options) ≡ ""
    → hex_run 64 n.id ≡ true
    → owner (bridge_name n) kind ≡ "docker"
unfolding bridge_name
bridge_name-owner n kind unnamed hex =
    let (t, e, run) = take_exact-hex_run 12 64 n.id (omega arith) hex in
    rw (unnamed, e) (named t kind run)

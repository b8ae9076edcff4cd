-- ===== src/Tests/Infra.antt =====
-- Bridges of a concrete host.
use better_nm.Prelude.{ℕ, List, [], ◌∷◌, true, Option, some, lookup, ◌==◌, if◌then◌else◌, ◌≡◌, refl}
use better_nm.Infra.Classify.{owner, hex_run}
use better_nm.Infra.Networks.{Link, Neighbour, DockerNetwork, option_text, bridge_name}
use better_nm.Infra.Docker.{bridge_name-owner}

abbrev compose : DockerNetwork
compose = record {
  name = "web_default";
  id = "3fa1b2c4d5e60718293a4b5c6d7e8f903fa1b2c4d5e60718293a4b5c6d7e8f90";
  driver = "bridge";
  options = [];
}

compose_unnamed : option_text (lookup "com.docker.network.bridge.name" compose.options) ≡ ""
unfolding option_text lookup
compose_unnamed = refl

compose_hex : hex_run 64 compose.id ≡ true
unfolding hex_run
compose_hex = refl

bridge_name-owner_example : owner (bridge_name compose) "bridge" ≡ "docker"
bridge_name-owner_example = bridge_name-owner compose "bridge" compose_unnamed compose_hex

abbrev bridge : Link
bridge = record { name = "br-3fa1b2c4d5e6"; if_index = 4; kind = "bridge"; master = "" }

abbrev port : Link
port = record { name = "veth12"; if_index = 5; kind = "veth"; master = "br-3fa1b2c4d5e6" }

-- One host is in both tables.
abbrev table : ℕ → Option (List Neighbour)
table i =
    if i == 4
    then some (record { ip = some "172.18.0.2"; mac = "02:42:ac:12:00:02"; state = 2 } ∷ [])
    else some (
        record { ip = some "172.18.0.2"; mac = "02:42:ac:12:00:02"; state = 4 }
        ∷ (record { ip = some "172.18.0.3"; mac = ""; state = 1 } ∷ []))

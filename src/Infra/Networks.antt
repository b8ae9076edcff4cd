-- ===== src/Infra/Networks.antt =====
-- internal/infra/networks.go: bridges with their members, neighbours and Docker names. What netlink
-- and the Docker socket answer is an argument; the ID of a Docker network is ASCII text.
use better_nm.Prelude.{
  ℕ, zero, suc, ◌/◌, ◌%◌, String, List, [], ◌∷◌, ◌++◌, Bool, true, not, ◌&&◌, ◌||◌, Option, none,
  some, Assoc, lookup, insert, is_some, str_eq, ◌==◌, if◌then◌else◌, any, ◌+s◌,
}
use better_nm.Monitor.Engine.{text_less}
use better_nm.Infra.Classify.{classify}

pub record Link : Type 0 where
  pub name : String
  pub if_index : ℕ
  pub kind : String
  pub master : String

pub record LanHost : Type 0 where
  pub ip : String
  pub mac : String
  pub state : String
  pub device : String

-- An entry of the kernel's neighbour table; `ip` is none for nil.
pub record Neighbour : Type 0 where
  pub ip : Option String
  pub mac : String
  pub state : ℕ

pub record InfraNetwork : Type 0 where
  pub bridge : Link
  pub owner : String
  pub owner_name : String
  pub members : List Link
  pub neighbours : List LanHost
  pub source : String
  pub reachable : String

-- The flag with that value is set.
abbrev pub flag : ℕ → ℕ → Bool
flag s f = (s / f) % 2 == 1

unfoldable neigh_state : ℕ → String
neigh_state s =
    if flag s 2 || flag s 128
    then "reachable"
    else if flag s 4 || flag s 8 || flag s 16
    then "stale"
    else if flag s 1
    then "incomplete"
    else if flag s 32
    then "failed"
    else "stale"

-- One entry of a table: the hosts so far with the addresses seen.
unfoldable pub add_address :
    Option String → String → Neighbour → List LanHost × Assoc Bool → List LanHost × Assoc Bool
unfolding neigh_state
add_address none device n st = st
add_address (some key) device n (hosts, seen) =
    if flag n.state 64 || (n.state == 0)
    then (hosts, seen)
    else if is_some (lookup key seen)
    then (hosts, seen)
    else (
      hosts
          ++ (record { ip = key; mac = n.mac; state = neigh_state n.state; device = device } ∷ []),
      insert key true seen,
    )

unfoldable pub add_neighbour :
    String → Neighbour → List LanHost × Assoc Bool → List LanHost × Assoc Bool
unfolding add_address
add_neighbour device n st = add_address n.ip device n st

unfoldable pub add_table :
    String → List Neighbour → List LanHost × Assoc Bool → List LanHost × Assoc Bool
unfolding add_neighbour
add_table device [] st = st
add_table device (n ∷ ns) st = add_table device ns (add_neighbour device n st)

-- A table that could not be read has no entries.
unfoldable pub entries : Option (List Neighbour) → List Neighbour
entries none = []
entries (some ns) = ns

-- The bridge's table and its members'
unfoldable pub add_tables :
    String
    → (ℕ → Option (List Neighbour))
    → List Link
    → List LanHost × Assoc Bool
    → List LanHost × Assoc Bool
unfolding add_table entries
add_tables device table [] st = st
add_tables device table (l ∷ ls) st =
    add_tables device table ls (add_table device (entries (table l.if_index)) st)

unfoldable pub insert_host : LanHost → List LanHost → List LanHost
insert_host h [] = h ∷ []
insert_host h (g ∷ gs) = if text_less g.ip h.ip then g ∷ insert_host h gs else h ∷ (g ∷ gs)

unfoldable pub sort_hosts : List LanHost → List LanHost
unfolding insert_host
sort_hosts [] = []
sort_hosts (h ∷ hs) = insert_host h (sort_hosts hs)

unfoldable pub bridge_neighbours : (ℕ → Option (List Neighbour)) → Link → List Link → List LanHost
unfolding add_tables sort_hosts
bridge_neighbours table bridge members =
    sort_hosts (add_tables bridge.name table (bridge ∷ members) ([], [])).0

-- `byMaster[name]`
unfoldable members_of : String → List Link → List Link
members_of name [] = []
members_of name (l ∷ ls) =
    let rest = members_of name ls in
    if not (str_eq l.master "") && str_eq l.master name then l ∷ rest else rest

-- The loop of `Networks` over the links.
unfoldable pub bridges :
    (ℕ → Option (List Neighbour)) → (String → Bool) → List Link → List Link → List InfraNetwork
unfolding classify members_of bridge_neighbours
bridges table has_sysfs_device links [] = []
bridges table has_sysfs_device links (l ∷ ls) =
    let rest = bridges table has_sysfs_device links ls in
    let own = (classify l.name l.kind (has_sysfs_device l.name)).1 in
    let members = members_of l.name links in
    if not (str_eq l.kind "bridge")
    then rest
    else record {
      bridge = l;
      owner = if str_eq own "" then "unknown" else own;
      owner_name = "";
      members = members;
      neighbours = bridge_neighbours table l members;
      source = "netlink";
      reachable = "";
    }
      ∷ rest

pub record DockerNetwork : Type 0 where
  pub name : String
  pub id : String
  pub driver : String
  pub options : Assoc String

-- The first characters of a text that has so many.
unfoldable pub take_exact : ℕ → String → Option String
take_exact zero s = some ""
take_exact (suc n) String.[] = none
take_exact (suc n) (String.◌∷◌ c s) = elim (take_exact n s) [
  | none ↦ none
  | some t ↦ some (String.◌∷◌ c t)
]

unfoldable pub option_text : Option String → String
option_text none = ""
option_text (some s) = s

unfoldable pub bridge_name : DockerNetwork → String
unfolding take_exact option_text
bridge_name n =
    let b = option_text (lookup "com.docker.network.bridge.name" n.options) in
    if not (str_eq b "") then b else elim (take_exact 12 n.id) [ none ↦ "" | some t ↦ "br-" +s t ]

-- `byBridge`
unfoldable by_bridge : List DockerNetwork → Assoc String → Assoc String
unfolding bridge_name
by_bridge [] m = m
by_bridge (d ∷ ds) m = by_bridge ds (
    if str_eq d.driver "bridge" && not (str_eq (bridge_name d) "")
    then insert (bridge_name d) d.name m
    else m)

abbrev is_docker : InfraNetwork → Bool
is_docker n = str_eq n.owner "docker"

unfoldable enrich_one : Assoc String → String → InfraNetwork → InfraNetwork
enrich_one names reachable n =
    let n' = record n { reachable = reachable } in
    if not (is_docker n) then n else elim (lookup n.bridge.name names) [
      | none ↦ n'
      | some name ↦ record n' { owner_name = name; source = "docker-api" }
    ]

unfoldable enrich_all : Assoc String → String → List InfraNetwork → List InfraNetwork
unfolding enrich_one
enrich_all names reachable [] = []
enrich_all names reachable (n ∷ ns) = enrich_one names reachable n ∷ enrich_all names reachable ns

-- `enrichDocker`, given what `dockerNetworks` returns
unfoldable enrich_docker : List DockerNetwork × String → List InfraNetwork → List InfraNetwork
unfolding by_bridge enrich_all
enrich_docker (list, reachable) nets =
    if any is_docker nets then enrich_all (by_bridge list []) reachable nets else nets

-- `Networks` on a context that has not ended
unfoldable pub networks :
    List DockerNetwork × String
    → (ℕ → Option (List Neighbour))
    → (String → Bool)
    → List Link
    → List InfraNetwork
unfolding bridges enrich_docker
networks docker table has_sysfs_device links =
    enrich_docker docker (bridges table has_sysfs_device links links)

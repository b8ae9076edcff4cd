-- ===== src/Infra/Neighbours.antt =====
-- The neighbours of a bridge.
use better_nm.Prelude.{
  ℕ, String, List, [], ◌∷◌, ◌++◌, Bool, true, false, ◌||◌, Option, none, some, Assoc, lookup,
  insert, lookup-insert, is_some, ◌==◌, All, All-map, All-append, ◌≡◌, ◌≢◌, sym, ap, arith, eq_iff,
  Bool-cases, inl, inr,
}
use better_nm.Infra.Networks.{
  Link, LanHost, Neighbour, flag, entries, add_address, add_neighbour, add_table, add_tables,
  insert_host, sort_hosts, bridge_neighbours,
}
use better_nm.Monitor.Engine.{text_less}

-- No address occurs twice.
abbrev DistinctIps : List LanHost → Type 0
DistinctIps [] = Unit
DistinctIps (h ∷ hs) = All (λ g. g.ip ≢ h.ip) hs × DistinctIps hs

-- Every host's address has been seen.
abbrev Seen : List LanHost × Assoc Bool → Type 0
Seen (hosts, seen) = DistinctIps hosts × All (λ h. is_some (lookup h.ip seen) ≡ true) hosts

DistinctIps-append :
    (hs : List LanHost) (h : LanHost)
    → DistinctIps hs
    → All (λ g. h.ip ≢ g.ip) hs
    → DistinctIps (hs ++ (h ∷ []))
DistinctIps-append [] h d new = (tt, tt)
DistinctIps-append (g ∷ gs) h (apart, d) (ne, new) =
    (All-append (λ x. x.ip ≢ g.ip) gs (h ∷ []) apart (ne, tt), DistinctIps-append gs h d new)

-- An address that was not seen is new among the hosts.
append-Seen :
    (hosts : List LanHost) (seen : Assoc Bool) (h : LanHost)
    → is_some (lookup h.ip seen) ≡ false
    → Seen (hosts, seen)
    → Seen (hosts ++ (h ∷ []), insert h.ip true seen)
append-Seen hosts seen h fresh (d, all) = (
  DistinctIps-append hosts h d (
      All-map (λ g. is_some (lookup g.ip seen) ≡ true) (λ g. h.ip ≢ g.ip) hosts
        (λ g at same. absurd (ground (arith, at, fresh, ap (λ k. is_some (lookup k seen)) same)))
        all),
  All-append (λ g. is_some (lookup g.ip (insert h.ip true seen)) ≡ true) hosts (h ∷ [])
      (All-map (λ g. is_some (lookup g.ip seen) ≡ true)
        (λ g. is_some (lookup g.ip (insert h.ip true seen)) ≡ true) hosts
        (λ g at. ground (arith, at, lookup-insert h.ip g.ip true seen)) all)
      (ground (arith, lookup-insert h.ip h.ip true seen, eq_iff h.ip h.ip), tt),
)

add_address-Seen :
    (o : Option String) (device : String) (n : Neighbour) (st : List LanHost × Assoc Bool)
    → Seen st
    → Seen (add_address o device n st)
unfolding add_address
add_address-Seen none device n st s = s
add_address-Seen (some key) device n st s = elim (Bool-cases (flag n.state 64 || (n.state == 0))) [
  | inl unused ↦ rw unused s
  | inr used ↦ rw used (elim (Bool-cases (is_some (lookup key st.1))) [
    | inl old ↦ rw old s
    | inr fresh ↦ rw fresh (append-Seen st.0 st.1 _ fresh s)
  ])
]

add_table-Seen :
    (device : String) (ns : List Neighbour) (st : List LanHost × Assoc Bool)
    → Seen st
    → Seen (add_table device ns st)
unfolding add_table add_neighbour
add_table-Seen device [] st s = s
add_table-Seen device (n ∷ ns) st s =
    add_table-Seen device ns (add_neighbour device n st) (add_address-Seen n.ip device n st s)

add_tables-Seen :
    (device : String) (table : ℕ → Option (List Neighbour)) (ls : List Link)
    (st : List LanHost × Assoc Bool)
    → Seen st
    → Seen (add_tables device table ls st)
unfolding add_tables
add_tables-Seen device table [] st s = s
add_tables-Seen device table (l ∷ ls) st s =
    let ns = entries (table l.if_index) in
    add_tables-Seen device table ls (add_table device ns st) (add_table-Seen device ns st s)

insert_host-All :
    (P : LanHost → Type 0) (h : LanHost) (hs : List LanHost)
    → P h
    → All P hs
    → All P (insert_host h hs)
unfolding insert_host
insert_host-All P h [] p all = (p, tt)
insert_host-All P h (g ∷ gs) p (q, all) = elim (Bool-cases (text_less g.ip h.ip)) [
  | inl less ↦ rw less (q, insert_host-All P h gs p all)
  | inr more ↦ rw more (p, (q, all))
]

insert_host-DistinctIps :
    (h : LanHost) (hs : List LanHost)
    → All (λ g. g.ip ≢ h.ip) hs
    → DistinctIps hs
    → DistinctIps (insert_host h hs)
unfolding insert_host
insert_host-DistinctIps h [] new d = (tt, tt)
insert_host-DistinctIps h (g ∷ gs) (ne, new) (apart, d) = elim (Bool-cases (text_less g.ip h.ip)) [
  | inl less ↦ rw less (
    insert_host-All (λ x. x.ip ≢ g.ip) h gs (λ e. ne (sym e)) apart,
    insert_host-DistinctIps h gs new d,
  )
  | inr more ↦ rw more ((ne, new), (apart, d))
]

sort_hosts-All : (P : LanHost → Type 0) (hs : List LanHost) → All P hs → All P (sort_hosts hs)
unfolding sort_hosts
sort_hosts-All P [] all = tt
sort_hosts-All P (h ∷ hs) (p, all) = insert_host-All P h (sort_hosts hs) p (sort_hosts-All P hs all)

sort_hosts-DistinctIps : (hs : List LanHost) → DistinctIps hs → DistinctIps (sort_hosts hs)
unfolding sort_hosts
sort_hosts-DistinctIps [] d = tt
sort_hosts-DistinctIps (h ∷ hs) (apart, d) =
    insert_host-DistinctIps h (sort_hosts hs) (sort_hosts-All (λ g. g.ip ≢ h.ip) hs apart)
      (sort_hosts-DistinctIps hs d)

-- Whatever the tables of a bridge and of its members say, and whichever cannot be read: no address
-- occurs twice among the neighbours of the bridge.
bridge_neighbours-DistinctIps :
    (table : ℕ → Option (List Neighbour)) (bridge : Link) (members : List Link)
    → DistinctIps (bridge_neighbours table bridge members)
unfolding bridge_neighbours
bridge_neighbours-DistinctIps table bridge members =
    sort_hosts-DistinctIps (add_tables bridge.name table (bridge ∷ members) ([], [])).0
      (add_tables-Seen bridge.name table (bridge ∷ members) ([], []) (tt, tt)).0

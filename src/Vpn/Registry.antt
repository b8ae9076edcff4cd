-- ===== src/Vpn/Registry.antt =====
-- internal/vpn/registry.go: one list and one way to connect over all backends. An adapter is what
-- one call of its methods returns. Letters are folded as ASCII letters, and `%q` is
-- the text in quotes.
pub mod Listing
pub mod Routing
use Prim.Native.Char.{code}
use better_nm.Prelude.{
  ℕ, ◌+◌, String, List, [], ◌∷◌, ◌++◌, Bool, true, false, not, ◌&&◌, Option, none, some, Assoc,
  lookup, insert, str_eq, ltb, leb, ◌==◌, if◌then◌else◌, ◌+s◌,
}
use better_nm.Core.Errors.{GoError, typed, not_found}
use better_nm.Core.Vpn.{Vpn, VpnBackend, backend_name, tailscale, wireguard, nm_vpn, VpnState}
use better_nm.Monitor.Engine.{text_less}

pub data ListResult : Type 0 where
  listed : List Vpn → ListResult
  failed : String → ListResult

pub record Adapter : Type 0 where
  pub backend : VpnBackend
  pub listing : ListResult
  pub connect : String → Option GoError  -- none is success
  pub disconnect : String → Option GoError

pub record Registry : Type 0 where
  pub adapters : List Adapter
  pub by_id : Assoc VpnBackend

-- `NewRegistry`; none is a nil entry.
unfoldable present : List (Option Adapter) → List Adapter
present [] = []
present (none ∷ rest) = present rest
present (some a ∷ rest) = a ∷ present rest

unfoldable new_registry : List (Option Adapter) → Registry
unfolding present
new_registry adapters = record { adapters = present adapters; by_id = [] }

abbrev pub same_backend : VpnBackend → VpnBackend → Bool
same_backend a b = str_eq (backend_name a) (backend_name b)

-- `Adapter(backend)`
unfoldable pub adapter_for : VpnBackend → List Adapter → Option Adapter
adapter_for b [] = none
adapter_for b (a ∷ rest) = if same_backend a.backend b then some a else adapter_for b rest

abbrev kind_for : VpnBackend → String
kind_for tailscale = "Tailscale"
kind_for wireguard = "WireGuard"
kind_for _ = "VPN"

unfoldable pub unavailable : VpnBackend → String → Vpn
unavailable b err = record {
  id = backend_name b;
  name = kind_for b;
  backend = b;
  kind = kind_for b;
  state = VpnState.unavailable;
  detail = "backend " +s (backend_name b +s " could not be queried");
  error = err;
}

abbrev is_unset : VpnBackend → Bool
is_unset VpnBackend.unset = true
is_unset _ = false

-- The inner loop: a VPN without a backend gets its adapter's.
unfoldable pub adopt : VpnBackend → List Vpn → List Vpn
adopt b [] = []
adopt b (v ∷ vs) = (if is_unset v.backend then record v { backend = b } else v) ∷ adopt b vs

-- What an adapter contributes to the list.
unfoldable pub contribution : Adapter → List Vpn
unfolding adopt unavailable
contribution a = elim a.listing [
  | listed vpns ↦ adopt a.backend vpns
  | failed err ↦ unavailable a.backend err ∷ []
]

unfoldable pub own : VpnBackend → List Vpn → Assoc VpnBackend → Assoc VpnBackend
own b [] owners = owners
own b (v ∷ vs) owners = own b vs (insert v.id b owners)

-- The outer loop: `out`, and `owners` written over the old `by_id`. The owners are entered here one
-- by one, and in the code at once, behind the loop.
unfoldable pub collect : List Adapter → List Vpn
unfolding contribution
collect [] = []
collect (a ∷ rest) = contribution a ++ collect rest

unfoldable pub owners : List Adapter → Assoc VpnBackend → Assoc VpnBackend
unfolding own contribution
owners [] m = m
owners (a ∷ rest) m = owners rest (own a.backend (contribution a) m)

unfoldable pub has_failed : List Adapter → Bool
has_failed [] = false
has_failed (a ∷ rest) = elim a.listing [ listed _ ↦ has_failed rest | failed _ ↦ true ]

-- `strings.ToLower`, as code points
unfoldable pub lower : String → List ℕ
lower String.[] = []
lower (String.◌∷◌ c s) =
    (if leb b'A' (code c) && leb (code c) b'Z' then code c + 32 else code c) ∷ lower s

unfoldable codes_less : List ℕ → List ℕ → Bool
codes_less [] [] = false
codes_less [] (y ∷ ys) = true
codes_less (x ∷ xs) [] = false
codes_less (x ∷ xs) (y ∷ ys) = if ltb x y then true else x == y && codes_less xs ys

abbrev pub is_connected : Vpn → Bool
is_connected v = elim v.state [ VpnState.connected ↦ true | _ ↦ false ]

-- The order behind equal connection states: by kind, name and ID.
unfoldable label_less : Vpn → Vpn → Bool
unfolding lower codes_less
label_less a b =
    let name_less = codes_less (lower a.name) (lower b.name) in
    let name_more = codes_less (lower b.name) (lower a.name) in
    if not (str_eq a.kind b.kind)
    then text_less a.kind b.kind
    else if name_less
    then true
    else if name_more
    then false
    else text_less a.id b.id

unfoldable pub vpn_less : Vpn → Vpn → Bool
unfolding label_less
vpn_less a b =
    if is_connected a && not (is_connected b)
    then true
    else if not (is_connected a) && is_connected b
    then false
    else label_less a b

-- `sort.SliceStable`
unfoldable pub insert_vpn : Vpn → List Vpn → List Vpn
insert_vpn v [] = v ∷ []
insert_vpn v (w ∷ ws) = if vpn_less w v then w ∷ insert_vpn v ws else v ∷ (w ∷ ws)

unfoldable pub sort_vpns : List Vpn → List Vpn
unfolding insert_vpn
sort_vpns [] = []
sort_vpns (v ∷ vs) = insert_vpn v (sort_vpns vs)

-- `List`; none is the error of a context that has ended, which is returned only if an adapter fails.
unfoldable pub list : Bool → Registry → Registry × Option (List Vpn)
list ended r =
    if ended && has_failed r.adapters
    then (r, none)
    else (record r { by_id = owners r.adapters r.by_id }, some (sort_vpns (collect r.adapters)))

pub data Route : Type 0 where
  to : Adapter → Route
  no_vpn : GoError → Route
  ended_route : Route

unfoldable pub known : String → Registry → Option Adapter
unfolding adapter_for
known id r = elim (lookup id r.by_id) [ none ↦ none | some b ↦ adapter_for b r.adapters ]

unfoldable pub route : Bool → String → Registry → Registry × Route
route ended id r = elim (known id r) [
  | some a ↦ (r, to a)
  | none ↦
      let (r', vpns) = list ended r in
      elim vpns [
        | none ↦ (r', ended_route)
        | some _ ↦ elim (known id r') [
          | some a ↦ (r', to a)
          | none ↦ (
            r',
            no_vpn (
                typed not_found "run `bnm vpn` to list them"
                  ("vpn: no VPN with id \"" +s (id +s "\""))),
          )
        ]
      ]
]

-- `Connect` and `Disconnect`: none is success.
unfoldable pub follow_route : Route → (Adapter → Option GoError) → GoError → Option GoError
follow_route (to a) call ended_error = call a
follow_route (no_vpn e) call ended_error = some e
follow_route ended_route call ended_error = some ended_error

unfoldable pub connect : Bool → GoError → String → Registry → Registry × Option GoError
unfolding follow_route
connect ended ended_error id r =
    let (r', found) = route ended id r in (r', follow_route found (λ a. a.connect id) ended_error)

unfoldable pub disconnect : Bool → GoError → String → Registry → Registry × Option GoError
unfolding follow_route
disconnect ended ended_error id r =
    let (r', found) = route ended id r in
    (r', follow_route found (λ a. a.disconnect id) ended_error)

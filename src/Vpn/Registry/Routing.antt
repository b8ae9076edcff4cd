-- ===== src/Vpn/Registry/Routing.antt =====
-- Whatever is listed can be connected.
use better_nm.Prelude.{
  String, List, [], ◌∷◌, ◌++◌, Bool, false, ◌||◌, Option, none, some, Assoc, lookup, insert, str_eq,
  if◌then◌else◌, ◌+s◌, ◌≡◌, refl, ◌∙◌, arith, lookup-insert,
}
use better_nm.Core.Errors.{GoError, typed, not_found}
use better_nm.Core.Vpn.{Vpn, VpnBackend}
use better_nm.Vpn.Registry.{
  Registry, Adapter, adapter_for, contribution, own, owners, collect, list, known, follow_route,
  route, connect,
}

-- One of the VPNs has the ID.
abbrev pub has_id : String → List Vpn → Bool
has_id id [] = false
has_id id (v ∷ vs) = str_eq v.id id || has_id id vs

-- A registered adapter has the backend.
abbrev IsServed : List Adapter → Option VpnBackend → Type 0
IsServed adapters none = ⊥
IsServed adapters (some b) = (a : Adapter) × (adapter_for b adapters ≡ some a)

has_id-append :
    (id : String) (vs ws : List Vpn) → has_id id (vs ++ ws) ≡ (has_id id vs || has_id id ws)
has_id-append id [] ws = refl
has_id-append id (v ∷ vs) ws = ground (arith, has_id-append id vs ws)

own-lookup :
    (b : VpnBackend) (vs : List Vpn) (m : Assoc VpnBackend) (id : String)
    → lookup id (own b vs m) ≡ (if has_id id vs then some b else lookup id m)
unfolding own
own-lookup b [] m id = refl
own-lookup b (v ∷ vs) m id =
    own-lookup b vs (insert v.id b m) id ∙ ground (arith, lookup-insert v.id id b m)

owners-absent :
    (rest : List Adapter) (m : Assoc VpnBackend) (id : String)
    → has_id id (collect rest) ≡ false
    → lookup id m ≡ none
    → lookup id (owners rest m) ≡ none
unfolding owners collect
owners-absent [] m id unlisted absent = absent
owners-absent (a ∷ rest) m id unlisted absent =
    owners-absent rest (own a.backend (contribution a) m) id
      (ground (arith, has_id-append id (contribution a) (collect rest)))
      (ground (
        arith,
        own-lookup a.backend (contribution a) m id,
        has_id-append id (contribution a) (collect rest),
      ))

-- An ID that no adapter lists, and that was not known before, is refused with kind `not_found`, and
-- no adapter is called; the owners of the listing are kept.
pub unlisted_refused :
    (r : Registry) (id : String) (ended_error : GoError)
    → has_id id (collect r.adapters) ≡ false
    → lookup id r.by_id ≡ none
    → connect false ended_error id r ≡ (
      (list false r).0,
      some
          (typed not_found "run `bnm vpn` to list them" ("vpn: no VPN with id \"" +s (id +s "\""))),
    )
unfolding connect route follow_route known list
unlisted_refused r id ended_error unlisted absent =
    ground (arith, absent, owners-absent r.adapters r.by_id id unlisted absent)

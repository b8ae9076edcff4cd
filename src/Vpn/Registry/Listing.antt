-- ===== src/Vpn/Registry/Listing.antt =====
-- What `List` returns.
use mathlib.Core.List.Perm
use mathlib.Core.List.{Perm}
use better_nm.Prelude.{
  List, [], ◌∷◌, true, false, some, All, ◌≡◌, refl, arith, Bool-cases, inl, inr,
}
use better_nm.Core.Vpn.{Vpn}
use better_nm.Vpn.Registry.{Registry, collect, is_connected, vpn_less, insert_vpn, sort_vpns, list}

-- No connected VPN stands behind one that is not.
abbrev pub ConnectedFirst : List Vpn → Type 0
ConnectedFirst [] = Unit
ConnectedFirst (v ∷ vs) =
    (is_connected v ≡ false → All (λ w. is_connected w ≡ false) vs) × ConnectedFirst vs

insert_vpn-perm : (v : Vpn) (vs : List Vpn) → Perm (insert_vpn v vs) (v ∷ vs)
unfolding insert_vpn
insert_vpn-perm v [] = Perm.refl (v ∷ [])
insert_vpn-perm v (w ∷ ws) = elim (Bool-cases (vpn_less w v)) [
  | inl less ↦ rw less (Perm.trans (Perm.cons w (insert_vpn-perm v ws)) (Perm.swap v w ws))
  | inr more ↦ rw more (Perm.refl (v ∷ (w ∷ ws)))
]

sort_vpns-perm : (vs : List Vpn) → Perm (sort_vpns vs) vs
unfolding sort_vpns
sort_vpns-perm [] = Perm.refl []
sort_vpns-perm (v ∷ vs) =
    Perm.trans (insert_vpn-perm v (sort_vpns vs)) (Perm.cons v (sort_vpns-perm vs))

insert_off :
    (v : Vpn) (vs : List Vpn)
    → is_connected v ≡ false
    → All (λ w. is_connected w ≡ false) vs
    → All (λ w. is_connected w ≡ false) (insert_vpn v vs)
unfolding insert_vpn
insert_off v [] off all = (off, tt)
insert_off v (w ∷ ws) off all = ground (arith, insert_off v ws off all.1)

less_off : (w v : Vpn) → vpn_less w v ≡ true → is_connected w ≡ false → is_connected v ≡ false
unfolding vpn_less
less_off w v less off = ground arith

not_less_off : (w v : Vpn) → vpn_less w v ≡ false → is_connected v ≡ false → is_connected w ≡ false
unfolding vpn_less
not_less_off w v more off = ground arith

insert_vpn-ConnectedFirst :
    (v : Vpn) (vs : List Vpn) → ConnectedFirst vs → ConnectedFirst (insert_vpn v vs)
unfolding insert_vpn
insert_vpn-ConnectedFirst v [] c = (λ off. tt, tt)
insert_vpn-ConnectedFirst v (w ∷ ws) c = elim (Bool-cases (vpn_less w v)) [
  | inl less ↦
      rw less (
        λ off. insert_off v ws (less_off w v less off) (c.0 off),
        insert_vpn-ConnectedFirst v ws c.1,
      )
  | inr more ↦ rw more (λ off. let off' = not_less_off w v more off in (off', c.0 off'), c)
]

sort_vpns-ConnectedFirst : (vs : List Vpn) → ConnectedFirst (sort_vpns vs)
unfolding sort_vpns
sort_vpns-ConnectedFirst [] = tt
sort_vpns-ConnectedFirst (v ∷ vs) =
    insert_vpn-ConnectedFirst v (sort_vpns vs) (sort_vpns-ConnectedFirst vs)

-- As long as the context has not ended `List` succeeds, whatever adapters fail: it returns, in some
-- order, what each adapter contributes (its VPNs, or one entry that says it could not be queried),
-- the connected ones before all others.
pub list_total :
    (r : Registry)
    → (vpns : List Vpn) × ((list false r).1 ≡ some vpns)
      × Perm vpns (collect r.adapters)
      × ConnectedFirst vpns
unfolding list
list_total r = (
  sort_vpns (collect r.adapters),
  refl,
  sort_vpns-perm (collect r.adapters),
  sort_vpns-ConnectedFirst (collect r.adapters),
)

-- ===== src/Nm/Agent/Requests.antt =====
-- The store of requests: what a sweep and a resolution leave of a request, and whom they tell.
use better_nm.Prelude.{
  ℕ, ◌+◌, String, List, [], ◌∷◌, ◌++◌, Bool, true, not, ◌&&◌, Option, none, some, Assoc, lookup,
  insert, erase, Distinct, str_eq, if◌then◌else◌, ◌≡◌, refl, arith, eq_iff,
}
use better_nm.Core.Secrets.{cancelled}
use better_nm.Nm.Agent.{Pending, Notice, needed, ended, no_answer, settle, resolve_locked, sweep}

-- How often the log says that request `id` ended.
unfoldable pub times : String → List Notice → ℕ
times id [] = 0
times id (needed r ∷ log) = times id log
times id (ended j o ∷ log) = let rest = times id log in if str_eq j id then rest + 1 else rest

pub times-append :
    (id : String) (xs ys : List Notice) → times id (xs ++ ys) ≡ times id xs + times id ys
unfolding times
times-append id [] ys = omega arith
times-append id (needed r ∷ xs) ys = times-append id xs ys
times-append id (ended j o ∷ xs) ys = ground (arith, times-append id xs ys)

-- Every request carries the ID under which it is stored.
abbrev pub Keyed : Assoc Pending → Type 0
Keyed [] = Unit
Keyed ((id, p) ∷ m) = (p.req.id ≡ id) × Keyed m

pub lookup-Keyed :
    (m : Assoc Pending) (id : String) (p : Pending) → Keyed m → lookup id m ≡ some p → p.req.id ≡ id
unfolding lookup
lookup-Keyed [] id p k h = cc
lookup-Keyed ((j, q) ∷ m) id p k h = ground (arith, eq_iff j id, lookup-Keyed m id p k.1)

pub insert-Keyed :
    (m : Assoc Pending) (id : String) (p : Pending)
    → p.req.id ≡ id
    → Keyed m
    → Keyed (insert id p m)
unfolding insert
insert-Keyed [] id p e k = (e, tt)
insert-Keyed ((j, q) ∷ m) id p e k = ground (arith, eq_iff j id, insert-Keyed m id p e k.1)

pub erase-Keyed : (m : Assoc Pending) (id : String) → Keyed m → Keyed (erase id m)
unfolding erase
erase-Keyed [] id k = tt
erase-Keyed ((j, q) ∷ m) id k = ground (arith, erase-Keyed m id k.1)

-- What a sweep leaves of one request.
unfoldable pub swept : (Pending → Bool) → Bool → Pending → Pending
unfolding settle
swept which by_nm p = if which p && not p.resolved then settle cancelled no_answer by_nm p else p

abbrev pub hit : (Pending → Bool) → Option Pending → ℕ
hit which none = 0
hit which (some p) = if which p && not p.resolved then 1 else 0

abbrev pub swept_option : (Pending → Bool) → Bool → Option Pending → Option Pending
swept_option which by_nm none = none
swept_option which by_nm (some p) = some (swept which by_nm p)

module _ (which : Pending → Bool) (by_nm : Bool) where
  pub lookup-sweep :
      (m : Assoc Pending) (on : Bool) (id : String)
      → lookup id (sweep which by_nm on m).0 ≡ swept_option which by_nm (lookup id m)
  unfolding sweep lookup swept resolve_locked
  lookup-sweep [] on id = refl
  lookup-sweep ((j, p) ∷ m) on id = ground (arith, lookup-sweep m on id)

  pub sweep-Distinct :
      (m : Assoc Pending) (on : Bool) → Distinct m → Distinct (sweep which by_nm on m).0
  unfolding sweep resolve_locked
  sweep-Distinct [] on d = tt
  sweep-Distinct ((j, p) ∷ m) on d = ground (arith, sweep-Distinct m on d.1, lookup-sweep m on j)

  pub sweep-Keyed : (m : Assoc Pending) (on : Bool) → Keyed m → Keyed (sweep which by_nm on m).0
  unfolding sweep resolve_locked settle
  sweep-Keyed [] on k = tt
  sweep-Keyed ((j, p) ∷ m) on k = ground (arith, sweep-Keyed m on k.1)

  pub times-sweep :
      (m : Assoc Pending) (id : String)
      → Distinct m
      → Keyed m
      → times id (sweep which by_nm true m).1 ≡ hit which (lookup id m)
  unfolding sweep resolve_locked times lookup
  times-sweep [] id d k = refl
  times-sweep ((j, p) ∷ m) id d k = ground (arith, times-sweep m id d.1 k.1, eq_iff j id)

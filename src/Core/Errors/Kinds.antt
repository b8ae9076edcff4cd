-- ===== src/Core/Errors/Kinds.antt =====
-- The kind and the hint of an error.
use better_nm.Prelude.{String, true, false, some, str_eq, ◌≡◌, refl, arith, Option-cases, inl, inr}
use better_nm.Core.Errors.{
  ErrorKind, Sentinel, GoError, sentinel, plain, hinted, explained, wrapped, typed, caused,
  sentinel_for, wrap, same_sentinel, error_is, error_as, hint_method, kind_by_sentinel, kind_of,
  hint_of,
}

is_sentinel_self : (s : Sentinel) → same_sentinel s s ≡ true
is_sentinel_self s = ground arith

error_as-error_is :
    (e : GoError) (kind : ErrorKind) (hint : String) (s : Sentinel)
    → error_as e ≡ some (kind, hint)
    → sentinel_for kind ≡ some s
    → error_is e s ≡ true
unfolding error_as error_is
error_as-error_is (sentinel _) kind hint s h k = absurd (ground arith)
error_as-error_is (plain _) kind hint s h k = absurd (ground arith)
error_as-error_is (hinted _ _) kind hint s h k = absurd (ground arith)
error_as-error_is (explained _ _ e) kind hint s h k = error_as-error_is e kind hint s h k
error_as-error_is (wrapped msg e) kind hint s h k = error_as-error_is e kind hint s h k
error_as-error_is (typed own _ _) kind hint s h k = ground (arith, is_sentinel_self s)
error_as-error_is (caused own _ _ e) kind hint s h k = ground (arith, is_sentinel_self s)

kind_by_sentinel-error_is :
    (e : GoError) (s : Sentinel) → sentinel_for (kind_by_sentinel e) ≡ some s → error_is e s ≡ true
unfolding kind_by_sentinel sentinel_for
kind_by_sentinel-error_is e s h = ground arith

-- `KindOf` never claims a kind that `errors.Is` denies: whenever the kind has a sentinel, the error
-- matches it, however deep the `*Error` or the sentinel stands in the chain of wraps.
pub kind_of-error_is :
    (e : GoError) (s : Sentinel) → sentinel_for (kind_of (some e)) ≡ some s → error_is e s ≡ true
unfolding kind_of
kind_of-error_is e s h = elim (Option-cases (error_as e)) [
  | inl free ↦ kind_by_sentinel-error_is e s (rw (free, kind_of) at h)
  | inr ((kind, hint), at) ↦ error_as-error_is e kind hint s at (rw (at, kind_of) at h)
]

-- `Wrap` sets the kind, also over an error of another kind and under further wraps by a text; the
-- sentinels that the cause matches stay matched; and a hint that is not empty is the one returned.
wrap_lem :
    (kind : ErrorKind) (hint msg : String) (e : GoError) (w : GoError)
    → wrap kind hint (some e) ≡ some w
    → (kind_of (some w) ≡ kind)
      × (kind_of (some (wrapped msg w)) ≡ kind)
      × ((s : Sentinel) → error_is e s ≡ true → error_is w s ≡ true)
      × (str_eq hint "" ≡ false → hint_of (some w) ≡ hint)
unfolding wrap kind_of error_as error_is hint_of
wrap_lem kind hint msg e w h =
    (ground arith, ground arith, λ s is. ground arith, λ set. ground arith)

-- A wrap with no hint hides the hint of the `*Error` that it wraps.
hint_hidden :
    (kind inner : ErrorKind) (msg hint : String)
    → hint_of (wrap kind "" (some (typed inner msg hint))) ≡ ""
unfolding wrap hint_of error_as hint_method
hint_hidden kind inner msg hint = refl

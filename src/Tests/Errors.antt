-- ===== src/Tests/Errors.antt =====
-- The kinds of concrete errors.
use better_nm.Prelude.{true, some, ◌≡◌, refl}
use better_nm.Core.Errors.{
  permission, err_not_found, GoError, sentinel, wrapped, caused, wrap, error_is, kind_of,
  sentinel_for, error_as, kind_by_sentinel,
}
use better_nm.Core.Errors.Kinds.{kind_of-error_is}

abbrev missing : GoError
missing = wrapped "nm: activate" (sentinel err_not_found)

missing_kind : sentinel_for (kind_of (some missing)) ≡ some err_not_found
unfolding kind_of error_as sentinel_for kind_by_sentinel error_is
missing_kind = refl

kind_of-error_is_example : error_is missing err_not_found ≡ true
kind_of-error_is_example = kind_of-error_is missing err_not_found missing_kind

wrapped_missing :
    wrap permission "run as root" (some missing) ≡ some (caused permission "" "run as root" missing)
unfolding wrap
wrapped_missing = refl

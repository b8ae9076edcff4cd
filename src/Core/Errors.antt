-- ===== src/Core/Errors.antt =====
-- internal/core/errors.go: typed errors, their kinds and hints.
pub mod Kinds
use better_nm.Prelude.{
  String, Bool, true, false, not, ◌||◌, Option, none, some, str_eq, if◌then◌else◌, ◌+s◌,
}

-- `no_kind` is the empty string, which `KindOf` returns for nil.
pub data ErrorKind : Type 0 where
  permission not_found unsupported invalid conflict unavailable internal no_kind : ErrorKind

pub data Sentinel : Type 0 where
  err_permission err_not_found err_unsupported err_invalid err_conflict err_unavailable : Sentinel

-- The errors that the program meets: a sentinel; an error of another package; one of another
-- package with a `Hint() string` method; one that `%w` wraps with a text; and a `*Error`, without
-- and with a cause.
pub data GoError : Type 0 where
  sentinel : Sentinel → GoError
  plain : String → GoError
  hinted : String → String → GoError
  explained : String → String → GoError → GoError
  wrapped : String → GoError → GoError
  typed : ErrorKind → String → String → GoError
  caused : ErrorKind → String → String → GoError → GoError

unfoldable pub sentinel_for : ErrorKind → Option Sentinel
sentinel_for permission = some err_permission
sentinel_for not_found = some err_not_found
sentinel_for unsupported = some err_unsupported
sentinel_for invalid = some err_invalid
sentinel_for conflict = some err_conflict
sentinel_for unavailable = some err_unavailable
sentinel_for _ = none

abbrev sentinel_text : Sentinel → String
sentinel_text err_permission = "permission denied"
sentinel_text err_not_found = "not found"
sentinel_text err_unsupported = "unsupported"
sentinel_text err_invalid = "invalid"
sentinel_text err_conflict = "conflict"
sentinel_text err_unavailable = "unavailable"

-- `Error()`
unfoldable pub error_text : GoError → String
error_text (sentinel s) = sentinel_text s
error_text (plain msg) = msg
error_text (hinted msg hint) = msg
error_text (explained msg hint e) = msg
error_text (wrapped msg e) = msg +s (": " +s error_text e)
error_text (typed kind msg hint) = msg
error_text (caused kind msg hint e) =
    let cause = error_text e in if not (str_eq msg "") then msg +s (": " +s cause) else cause

-- `Errorf`, with the text already formatted
abbrev errorf : ErrorKind → String → String → GoError
errorf kind hint msg = typed kind msg hint

-- `Wrap`
unfoldable pub wrap : ErrorKind → String → Option GoError → Option GoError
wrap kind hint none = none
wrap kind hint (some e) = some (caused kind "" hint e)

abbrev pub same_sentinel : Sentinel → Sentinel → Bool
same_sentinel err_permission err_permission = true
same_sentinel err_not_found err_not_found = true
same_sentinel err_unsupported err_unsupported = true
same_sentinel err_invalid err_invalid = true
same_sentinel err_conflict err_conflict = true
same_sentinel err_unavailable err_unavailable = true
same_sentinel _ _ = false

abbrev is_sentinel : Option Sentinel → Sentinel → Bool
is_sentinel none target = false
is_sentinel (some s) target = same_sentinel s target

-- `errors.Is(err, target)` for a sentinel, through `Unwrap`
unfoldable pub error_is : GoError → Sentinel → Bool
unfolding sentinel_for
error_is (sentinel s) target = same_sentinel s target
error_is (plain msg) target = false
error_is (hinted msg hint) target = false
error_is (explained msg hint e) target = error_is e target
error_is (wrapped msg e) target = error_is e target
error_is (typed kind msg hint) target = is_sentinel (sentinel_for kind) target
error_is (caused kind msg hint e) target =
    is_sentinel (sentinel_for kind) target || error_is e target

-- `errors.As(err, &e)` for a `*Error`: its kind and its hint
unfoldable pub error_as : GoError → Option (ErrorKind × String)
error_as (sentinel s) = none
error_as (plain msg) = none
error_as (hinted msg hint) = none
error_as (explained msg hint e) = error_as e
error_as (wrapped msg e) = error_as e
error_as (typed kind msg hint) = some (kind, hint)
error_as (caused kind msg hint e) = some (kind, hint)

-- `errors.As(err, &h)` for the interface with `Hint() string`, which `*Error` does not have
unfoldable pub hint_method : GoError → Option String
hint_method (sentinel s) = none
hint_method (plain msg) = none
hint_method (hinted msg hint) = some hint
hint_method (explained msg hint e) = some hint
hint_method (wrapped msg e) = hint_method e
hint_method (typed kind msg hint) = none
hint_method (caused kind msg hint e) = hint_method e

-- The `switch` of `KindOf`.
unfoldable pub kind_by_sentinel : GoError → ErrorKind
kind_by_sentinel e =
    if error_is e err_permission
    then permission
    else if error_is e err_not_found
    then not_found
    else if error_is e err_unsupported
    then unsupported
    else if error_is e err_invalid
    then invalid
    else if error_is e err_conflict
    then conflict
    else if error_is e err_unavailable
    then unavailable
    else internal

unfoldable pub kind_of : Option GoError → ErrorKind
kind_of none = no_kind
kind_of (some e) = elim (error_as e) [ some (kind, hint) ↦ kind | none ↦ kind_by_sentinel e ]

unfoldable pub hint_of : Option GoError → String
hint_of none = ""
hint_of (some e) =
    let other : String = elim (hint_method e) [ some h ↦ h | none ↦ "" ] in
    elim (error_as e) [
      | some (kind, hint) ↦ if not (str_eq hint "") then hint else other
      | none ↦ other
    ]

-- ===== src/Nm/Errors.antt =====
-- internal/nm/errors.go: D-Bus failures as errors with a sentinel and a hint.
use better_nm.Prelude.{
  String, List, [], ◌∷◌, Bool, true, false, ◌&&◌, ◌||◌, Option, none, some, any, str_eq, not,
  if◌then◌else◌, ◌+s◌, Assoc,
}
use better_nm.Core.Errors.{
  permission, not_found, unsupported, invalid, conflict, unavailable, GoError, plain, hinted,
  explained, wrapped, typed, error_text,
}
use better_nm.Nm.Texts.{has_prefix, contains, after_last}

-- The sentinels of the package.
abbrev permission_denied : GoError
permission_denied = typed permission "permission denied" ""

abbrev pub err_not_found : GoError
err_not_found = typed not_found "not found" ""

abbrev auth_failed : GoError
auth_failed = typed invalid "authentication failed" ""

abbrev pub no_secrets : GoError
no_secrets = typed invalid "no secrets available" ""

abbrev pub err_unsupported : GoError
err_unsupported = typed unsupported "unsupported" ""

abbrev pub err_unavailable : GoError
err_unavailable = typed unavailable "NetworkManager unavailable" ""

abbrev pub err_conflict : GoError
err_conflict = typed conflict "profile changed concurrently" ""

-- `timeoutError` matches context.DeadlineExceeded, which is no sentinel of the program.
abbrev timed_out : GoError
timed_out = plain "timed out"

abbrev polkit_hint : String
polkit_hint =
    "NetworkManager asked polkit and got no answer. Run a session polkit authentication agent (polkit-gnome, polkit-kde-agent, lxpolkit, hyprpolkitagent, ...) so prompts can be shown, or ask an admin to grant the action in a polkit rule. Profiles bnm creates are scoped to your user and never prompt."

abbrev no_secrets_hint : String
no_secrets_hint =
    "the password prompt was cancelled or not answered in time; retry, or store the password in the profile (`bnm wifi connect <ssid> --ask`). Pending prompts: `bnm secrets`"

-- `Error()` of the package's own error: operation, sentinel, message and D-Bus name.
unfoldable nm_text : String → String → String → Option GoError → String
unfolding error_text
nm_text op name msg kind =
    let middle : String = elim kind [
      | none ↦ msg
      | some k ↦ if not (str_eq msg "") then error_text k +s (": " +s msg) else error_text k
    ] in
    "nm: "
    +s (op +s (": " +s (middle +s (if not (str_eq name "") then " (" +s (name +s ")") else ""))))

-- `&Error{...}`, with its `Hint` and `Unwrap`
unfoldable pub nm_error : String → String → String → Option GoError → String → GoError
unfolding nm_text
nm_error op name msg none hint = hinted (nm_text op name msg none) hint
nm_error op name msg (some kind) hint = explained (nm_text op name msg (some kind)) hint kind

abbrev one_of : String → List String → Bool
one_of s names = any (str_eq s) names

abbrev dbus : String → String
dbus name = "org.freedesktop.DBus.Error." +s name

-- The last `switch` of `classify`, on what stands behind the last dot.
unfoldable classify_suffix : String → Option GoError × String
classify_suffix suffix =
    if str_eq suffix "PermissionDenied"
    then (some permission_denied, polkit_hint)
    else if one_of suffix (
        "UnknownConnection"
        ∷ ("UnknownDevice"
            ∷ ("SpecificObjectNotFound"
                ∷ ("ConnectionNotActive"
                    ∷ ("SettingNotFound"
                        ∷ ("PropertyNotFound" ∷ ("NotRegistered" ∷ ("DoesNotExist" ∷ []))))))))
    then (some err_not_found, "")
    else if one_of suffix ("NoSecrets" ∷ ("UserCanceled" ∷ ("AgentCanceled" ∷ [])))
    then (some no_secrets, no_secrets_hint)
    else if one_of suffix
        ("NotSupported" ∷ ("MissingPlugin" ∷ ("NotSoftware" ∷ ("MissingDependencies" ∷ []))))
    then (some err_unsupported, "")
    else if str_eq suffix "VersionIdMismatch"
    then (some err_conflict, "re-read the profile and retry")
    else if str_eq suffix "LoginFailed"
    then (some auth_failed, "")
    else (none, "")

unfoldable pub classify : String → String → Option GoError × String
unfolding classify_suffix contains has_prefix after_last
classify name msg =
    if str_eq name (dbus "AccessDenied")
    then (some permission_denied, polkit_hint)
    else if str_eq name (dbus "ServiceUnknown")
        || str_eq name (dbus "NameHasNoOwner")
        || (str_eq name (dbus "NoReply") && contains msg "disconnected")
    then (some err_unavailable, "is NetworkManager running? (systemctl status NetworkManager)")
    else if str_eq name (dbus "UnknownMethod")
        || str_eq name (dbus "UnknownInterface")
        || str_eq name (dbus "UnknownProperty")
    then (
      some err_unsupported,
      "this NetworkManager does not offer the call bnm needs (NM >= 1.44 is expected)",
    )
    else if str_eq name (dbus "UnknownObject")
    then (some err_not_found, "")
    else if str_eq name (dbus "NoReply")
    then (
      some timed_out,
      "NetworkManager did not answer in time; a polkit prompt may be waiting on your desktop",
    )
    else if not (has_prefix name "org.freedesktop.NetworkManager.")
    then (none, "")
    else classify_suffix (after_last 46 name)

-- What a call over D-Bus fails with: an error of the bus, with its first body value if that is a
-- text; a closed connection; another error.
data Failure : Type 0 where
  bus : String → Option String → Failure
  closed : String → Failure
  foreign : GoError → Failure

unfoldable wrap_dbus : String → Option Failure → Option GoError
unfolding nm_error classify
wrap_dbus op none = none
wrap_dbus op (some (bus name body)) =
    let msg : String = elim body [ none ↦ name | some s ↦ s ] in
    let (kind, hint) = classify name msg in some (nm_error op name msg kind hint)
wrap_dbus op (some (closed msg)) = some (nm_error op "" msg (some err_unavailable) "")
wrap_dbus op (some (foreign e)) = some (wrapped ("nm: " +s op) e)

-- `newErr`; only the permission sentinel matches itself under `errors.Is`.
abbrev is_permission : Option GoError → Bool
is_permission (some (typed permission _ _)) = true
is_permission _ = false

unfoldable pub new_err : String → Option GoError → String → GoError
unfolding nm_error
new_err op kind msg = nm_error op "" msg kind (if is_permission kind then polkit_hint else "")

-- `PolkitAuthActions`, in the order of the map's listing
unfoldable polkit_auth_actions : Assoc String → List String
polkit_auth_actions [] = []
polkit_auth_actions ((k, v) ∷ perms) =
    let rest = polkit_auth_actions perms in if str_eq v "auth" then k ∷ rest else rest

-- ===== src/Nm/Reply.antt =====
-- internal/nm/agent.go: the flags of the secrets that are asked for, and what an answer sends back.
use better_nm.Prelude.{
  ℕ, String, List, [], ◌∷◌, Bool, true, false, ◌||◌, ◌&&◌, Option, none, some, Assoc, lookup,
  insert, is_some, str_eq, ◌==◌, if◌then◌else◌, ◌+s◌,
}
use better_nm.Core.Secrets.{SecretField, SecretRequest, SecretAnswer}
use better_nm.Vpn.WireGuard.Text.{parse_uint}
use better_nm.Nm.Texts.{has_prefix}
use better_nm.Nm.Variant.{text, u32, str_map, one, Props, SettingsDict, section, v_u32, v_str_map}
use better_nm.Nm.Consts.{setting_vpn, secret_flags_none}

unfoldable flags_key : String → String
unfolding has_prefix
flags_key key = if has_prefix key "wep-key" then "wep-key-flags" else key +s "-flags"

-- `strconv.ParseUint(s, 10, 32)` takes no sign.
unfoldable parse_flags : String → Option ℕ
unfolding parse_uint has_prefix
parse_flags s = if has_prefix s "+" || has_prefix s "-" then none else parse_uint s 4294967295

unfoldable vpn_flags : Assoc String → List SecretField → Assoc ℕ
unfolding parse_flags
vpn_flags m [] = []
vpn_flags m (f ∷ fs) = elim (lookup (f.key +s "-flags") m) [
  | none ↦ vpn_flags m fs
  | some s ↦ elim (parse_flags s) [ none ↦ vpn_flags m fs | some n ↦ (f.key, n) ∷ vpn_flags m fs ]
]

unfoldable section_flags : Props → List SecretField → Assoc ℕ
unfolding flags_key v_u32
section_flags sec [] = []
section_flags sec (f ∷ fs) =
    let rest = section_flags sec fs in
    if is_some (lookup (flags_key f.key) sec)
    then (f.key, v_u32 sec (flags_key f.key)) ∷ rest
    else rest

unfoldable pub secret_flags_of : SettingsDict → String → List SecretField → Assoc ℕ
unfolding vpn_flags section_flags v_str_map section
secret_flags_of conn setting fields =
    if str_eq setting setting_vpn
    then vpn_flags (v_str_map (section setting_vpn conn) "data") fields
    else section_flags (section setting conn) fields

unfoldable pub needs_persist : Assoc ℕ → Bool
needs_persist [] = false
needs_persist ((k, v) ∷ flags) = if v == secret_flags_none then needs_persist flags else true

-- The loop over the fields of a VPN: `vpn.secrets` and `vpn.data`.
unfoldable pub with_secret : SecretAnswer → SecretField → Assoc String → Assoc String
with_secret a f m = elim (lookup f.key a.secrets) [
  | none ↦ m
  | some v ↦ if f.secret then insert f.key v m else m
]

unfoldable pub vpn_secrets : SecretAnswer → List SecretField → Assoc String → Assoc String
unfolding with_secret
vpn_secrets a [] m = m
vpn_secrets a (f ∷ fs) m = vpn_secrets a fs (with_secret a f m)

unfoldable pub vpn_data : SecretAnswer → List SecretField → Assoc String → Assoc String
vpn_data a [] m = m
vpn_data a (f ∷ fs) m = vpn_data a fs (elim (lookup f.key a.secrets) [
  | none ↦ m
  | some v ↦
      if f.secret then if a.save then insert (f.key +s "-flags") "0" m else m else insert f.key v m
])

-- The loop over the fields of another setting.
unfoldable plain_reply : SecretAnswer → List SecretField → Props → Props
unfolding flags_key
plain_reply a [] m = m
plain_reply a (f ∷ fs) m = plain_reply a fs (elim (lookup f.key a.secrets) [
  | none ↦ m
  | some v ↦
      let m' = insert f.key (one (text v)) m in
      if f.secret && a.save then insert (flags_key f.key) (one (u32 secret_flags_none)) m' else m'
])

abbrev pub data_entry : Assoc String → Props
data_entry [] = []
data_entry (e ∷ es) = ("data", one (str_map (e ∷ es))) ∷ []

unfoldable pub secrets_reply : String → SecretRequest → SecretAnswer → SettingsDict
unfolding vpn_secrets vpn_data plain_reply
secrets_reply setting req a =
    if str_eq setting setting_vpn
    then (
      setting_vpn,
      ("secrets", one (str_map (vpn_secrets a req.fields [])))
          ∷ data_entry (vpn_data a req.fields []),
    )
      ∷ []
    else (setting, plain_reply a req.fields []) ∷ []

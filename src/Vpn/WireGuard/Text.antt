-- ===== src/Vpn/WireGuard/Text.antt =====
-- The text operations of internal/vpn/wireguard/parse.go. A text is its characters; letters are
-- folded as ASCII letters.
use Prim.Native.Char.{code}
use Prim.Native.String
use better_nm.Prelude.{
  ℕ, zero, suc, ◌+◌, ◌*◌, ◌-◌, String, List, [], ◌∷◌, Bool, false, ◌&&◌, ◌||◌, Option, none, some,
  str_eq, leb, ◌==◌, if◌then◌else◌, ◌+s◌, length,
}

-- `unicode.IsSpace`
unfoldable pub is_space : ℕ → Bool
is_space c =
    (leb 9 c && leb c 13)
    || (c == 32)
    || (c == 133)
    || (c == 160)
    || (c == 5760)
    || (leb 8192 c && leb c 8202)
    || (c == 8232)
    || (c == 8233)
    || (c == 8239)
    || (c == 8287)
    || (c == 12288)

unfoldable trim_left : String → String
trim_left String.[] = ""
trim_left (String.◌∷◌ c s) = if is_space (code c) then trim_left s else String.◌∷◌ c s

unfoldable trim_right : String → String
trim_right String.[] = ""
trim_right (String.◌∷◌ c s) =
    let rest = trim_right s in if str_eq rest "" && is_space (code c) then "" else String.◌∷◌ c rest

-- `strings.TrimSpace`
unfoldable pub trim : String → String
unfolding trim_left trim_right
trim s = trim_right (trim_left s)

-- What stands before the first character `c`, or all of the text.
unfoldable pub before : ℕ → String → String
before c String.[] = ""
before c (String.◌∷◌ d s) = if code d == c then "" else String.◌∷◌ d (before c s)

-- `strings.Cut` at a character
unfoldable pub cut : ℕ → String → Option (String × String)
cut c String.[] = none
cut c (String.◌∷◌ d s) =
    if code d == c
    then some ("", s)
    else elim (cut c s) [ none ↦ none | some (k, v) ↦ some (String.◌∷◌ d k, v) ]

-- `strings.Split` at a character
unfoldable pub split : ℕ → String → List String
split c String.[] = "" ∷ []
split c (String.◌∷◌ d s) =
    let rest = split c s in
    if code d == c
    then "" ∷ rest
    else elim rest [ [] ↦ [] | part ∷ parts ↦ String.◌∷◌ d part ∷ parts ]

-- What stands behind the last `/` or `\`, or all of the text.
unfoldable base_name_from : String → String → String
base_name_from found String.[] = found
base_name_from found (String.◌∷◌ c s) =
    if (code c == 47) || (code c == 92) then base_name_from s s else base_name_from found s

-- `strings.TrimSuffix`
unfoldable trim_suffix : String → String → String
trim_suffix end String.[] = ""
trim_suffix end (String.◌∷◌ c s) =
    if str_eq (String.◌∷◌ c s) end then "" else String.◌∷◌ c (trim_suffix end s)

-- The text without its last character, if that is `c`.
unfoldable pub drop_last : ℕ → String → Option String
drop_last c String.[] = none
drop_last c (String.◌∷◌ d s) =
    if str_eq s ""
    then if code d == c then some "" else none
    else elim (drop_last c s) [ none ↦ none | some rest ↦ some (String.◌∷◌ d rest) ]

abbrev is_upper : ℕ → Bool
is_upper c = leb 65 c && leb c 90

abbrev pub is_lower : ℕ → Bool
is_lower c = leb 97 c && leb c 122

abbrev is_digit : ℕ → Bool
is_digit c = leb 48 c && leb c 57

unfoldable pub split_list : String → List String
unfolding split trim
split_list v = kept (split 44 v)
  where
    kept : List String → List String
    kept [] = []
    kept (s ∷ rest) = if str_eq (trim s) "" then kept rest else trim s ∷ kept rest

-- The value of decimal digits; none is another character.
unfoldable digits_from : ℕ → String → Option ℕ
digits_from n String.[] = some n
digits_from n (String.◌∷◌ c s) =
    if is_digit (code c) then digits_from (n * 10 + (code c - 48)) s else none

unfoldable pub digits : String → Option ℕ
unfolding digits_from
digits s = if str_eq s "" then none else digits_from 0 s

-- `parseUint` with `strconv.Atoi`: a sign may stand before the digits; -0 is 0.
unfoldable pub parse_uint : String → ℕ → Option ℕ
unfolding digits
parse_uint String.[] max = none
parse_uint (String.◌∷◌ c s) max =
    if code c == 45
    then elim (digits s) [ none ↦ none | some n ↦ if n == 0 then some 0 else none ]
    else elim (digits (if code c == 43 then s else String.◌∷◌ c s)) [
      | none ↦ none
      | some n ↦ if leb n max then some n else none
    ]

-- `base64.StdEncoding`: line breaks are skipped.
abbrev is_base64 : ℕ → Bool
is_base64 c = is_upper c || is_lower c || is_digit c || (c == 43) || (c == 47)

unfoldable key_chars : String → List ℕ
key_chars String.[] = []
key_chars (String.◌∷◌ c s) =
    if (code c == 10) || (code c == 13) then key_chars s else code c ∷ key_chars s

-- 43 characters of the alphabet and one `=`: the only form that 32 bytes have.
unfoldable is_key_form : ℕ → List ℕ → Bool
is_key_form zero [] = false
is_key_form zero (c ∷ cs) = (c == 61) && (length cs == 0)
is_key_form (suc n) [] = false
is_key_form (suc n) (c ∷ cs) = is_base64 c && is_key_form n cs

-- `validateKey` succeeds.
unfoldable pub is_key : String → Bool
unfolding key_chars is_key_form
is_key s = is_key_form 43 (key_chars s)

abbrev pub is_name_char : ℕ → Bool
is_name_char c = is_lower c || is_upper c || is_digit c || (c == 95) || (c == 45) || (c == 46)

-- The loop of `ifaceName`: at most `room` characters are kept.
unfoldable pub legal_chars : ℕ → String → String
legal_chars zero s = ""
legal_chars (suc room) String.[] = ""
legal_chars (suc room) (String.◌∷◌ c s) =
    if is_name_char (code c) then String.◌∷◌ c (legal_chars room s) else legal_chars (suc room) s

unfoldable pub iface_name : String → String
unfolding legal_chars
iface_name name =
    let s = legal_chars 15 name in if str_eq s "" || str_eq s "." || str_eq s ".." then "wg0" else s

unfoldable pub profile_name : String → String
unfolding trim base_name_from trim_suffix
profile_name name =
    let base = trim_suffix ".conf" (base_name_from (trim name) (trim name)) in
    if str_eq base "" then "wg0" else base

-- `strings.ToLower`
unfoldable pub lower_text : String → String
lower_text String.[] = ""
lower_text (String.◌∷◌ c s) =
    let rest = lower_text s in
    if is_upper (code c)
    then String.slice "abcdefghijklmnopqrstuvwxyz" (code c - 65) (code c - 64) +s rest
    else String.◌∷◌ c rest

-- ===== src/Nm/Texts.antt =====
-- The operations of Go's package strings that internal/nm uses. Letters are ASCII letters.
use Prim.Native.Char.{code}
use Prim.Native.String
use better_nm.Prelude.{
  ℕ, zero, suc, ltb, ◌+◌, ◌/◌, ◌%◌, ◌-◌, String, List, [], ◌∷◌, Bool, true, false, str_eq, ◌==◌,
  if◌then◌else◌, is_some, ◌+s◌,
}
use better_nm.Infra.Classify.{strip}
use better_nm.Vpn.WireGuard.Text.{is_lower}

-- `strings.HasPrefix`
unfoldable pub has_prefix : String → String → Bool
unfolding strip
has_prefix s prefix = is_some (strip prefix s)

-- `strings.HasSuffix`
unfoldable pub has_suffix : String → String → Bool
has_suffix String.[] end = str_eq "" end
has_suffix (String.◌∷◌ c s) end = if str_eq (String.◌∷◌ c s) end then true else has_suffix s end

-- `strings.Contains`
unfoldable pub contains : String → String → Bool
unfolding strip
contains String.[] part = str_eq part ""
contains (String.◌∷◌ c s) part =
    if is_some (strip part (String.◌∷◌ c s)) then true else contains s part

-- `strings.ReplaceAll` of one character by a text
unfoldable pub replace_char : ℕ → String → String → String
replace_char old new String.[] = ""
replace_char old new (String.◌∷◌ c s) =
    let rest = replace_char old new s in if code c == old then new +s rest else String.◌∷◌ c rest

-- `strings.ToUpper(s[:1]) + s[1:]`
unfoldable pub upper_first : String → String
upper_first String.[] = ""
upper_first (String.◌∷◌ c s) =
    if is_lower (code c)
    then String.slice "ABCDEFGHIJKLMNOPQRSTUVWXYZ" (code c - 97) (code c - 96) +s s
    else String.◌∷◌ c s

-- `strings.Join`
unfoldable pub join : String → List String → String
join separator [] = ""
join separator (s ∷ []) = s
join separator (s ∷ (t ∷ rest)) = s +s (separator +s join separator (t ∷ rest))

-- What stands behind the last character `c`, or all of the text.
unfoldable after_last_from : ℕ → String → String → String
after_last_from c found String.[] = found
after_last_from c found (String.◌∷◌ d s) =
    if code d == c then after_last_from c s s else after_last_from c found s

unfoldable pub after_last : ℕ → String → String
unfolding after_last_from
after_last c s = after_last_from c s s

abbrev digit : ℕ → String
digit d = String.slice "0123456789" d (d + 1)

-- `%d`; the fuel is above the number of digits.
unfoldable decimal_from : ℕ → ℕ → String
decimal_from zero n = ""
decimal_from (suc fuel) n = elim (ltb n 10) [
  | true ↦ digit n
  | false ↦ decimal_from fuel (n / 10) +s digit (n % 10)
]

unfoldable pub decimal : ℕ → String
unfolding decimal_from
decimal n = decimal_from (n + 1) n

-- ===== src/Cli/Resolve.antt =====
-- internal/cli/resolve.go: the one thing that a name or an ID means. Letters are folded as ASCII
-- letters, and `%q` is the text in quotes.
pub mod Levels
pub mod Agree
pub mod Choice
use Prim.Native.Char.{len_utf8}
use Prim.Native.String
use better_nm.Prelude.{
  ℕ, ◌+◌, String, List, [], ◌∷◌, Bool, true, false, not, ◌&&◌, ◌||◌, Option, none, some, map,
  str_eq, leb, ◌==◌, if◌then◌else◌, ◌+s◌,
}
use better_nm.Core.Errors.{GoError, hinted, typed, invalid, not_found}
use better_nm.Core.Status.{Profile, ProfileType, wifi, ethernet, wireguard, vpn, bridge}
use better_nm.Core.Vpn.{vpn_kind_for_service_type}
use better_nm.Monitor.Engine.{text_less}
use better_nm.Vpn.Registry.{lower}

pub record Candidate : Type 0 where
  pub id : String
  pub name : String
  pub kind : String
  pub ssid : String

abbrev quoted : String → String
quoted s = "\"" +s (s +s "\"")

-- `String()`
unfoldable candidate_text : Candidate → String
candidate_text c =
    let start = c.id +s ("  " +s (c.name +s (" (" +s c.kind))) in
    if not (str_eq c.ssid "") && not (str_eq c.ssid c.name)
    then start +s (", ssid " +s (quoted c.ssid +s ")"))
    else start +s ")"

-- `Error()` of an `ambiguousError`
unfoldable ambiguous_text : String → List Candidate → String
ambiguous_text arg candidates = quoted arg +s (" is ambiguous; it matches:" +s lines candidates)
  where
    lines : List Candidate → String
    lines [] = ""
    lines (c ∷ cs) = "\n  " +s (candidate_text c +s lines cs)

-- `len(s)`
unfoldable byte_length : String → ℕ
byte_length String.[] = 0
byte_length (String.◌∷◌ c s) = len_utf8 c + byte_length s

unfoldable same_codes : List ℕ → List ℕ → Bool
same_codes [] [] = true
same_codes (x ∷ xs) (y ∷ ys) = (x == y) && same_codes xs ys
same_codes _ _ = false

unfoldable pub has_prefix : List ℕ → List ℕ → Bool
has_prefix xs [] = true
has_prefix [] (y ∷ ys) = false
has_prefix (x ∷ xs) (y ∷ ys) = (x == y) && has_prefix xs ys

abbrev same_fold : String → String → Bool
same_fold s t = same_codes (lower s) (lower t)

abbrev starts_fold : String → String → Bool
starts_fold s t = has_prefix (lower s) (lower t)

-- The four functions of `tiers`, the strictest one first.
unfoldable pub exact : String → Candidate → Bool
exact arg c = str_eq c.name arg || str_eq c.ssid arg

unfoldable pub folded : String → Candidate → Bool
unfolding same_codes lower
folded arg c = same_fold c.name arg || same_fold c.ssid arg

unfoldable pub id_prefix : String → Candidate → Bool
unfolding has_prefix lower byte_length
id_prefix arg c = leb 3 (byte_length arg) && starts_fold c.id arg

unfoldable pub name_prefix : String → Candidate → Bool
unfolding has_prefix lower byte_length
name_prefix arg c = leb 2 (byte_length arg) && (starts_fold c.name arg || starts_fold c.ssid arg)

abbrev pub tiers : String → List (Candidate → Bool)
tiers arg = exact arg ∷ (folded arg ∷ (id_prefix arg ∷ (name_prefix arg ∷ [])))

unfoldable pub find_id : String → List Candidate → Option Candidate
find_id arg [] = none
find_id arg (c ∷ cs) = if str_eq c.id arg then some c else find_id arg cs

unfoldable pub hits_of : (Candidate → Bool) → List Candidate → List Candidate
hits_of match [] = []
hits_of match (c ∷ cs) = let rest = hits_of match cs in if match c then c ∷ rest else rest

unfoldable insert_name : String → List String → List String
insert_name n [] = n ∷ []
insert_name n (m ∷ ms) = if text_less m n then m ∷ insert_name n ms else n ∷ (m ∷ ms)

unfoldable sort_names : List String → List String
unfolding insert_name
sort_names [] = []
sort_names (n ∷ ns) = insert_name n (sort_names ns)

unfoldable pub insert_hit : Candidate → List Candidate → List Candidate
insert_hit c [] = c ∷ []
insert_hit c (d ∷ ds) = if text_less d.name c.name then d ∷ insert_hit c ds else c ∷ (d ∷ ds)

unfoldable pub sort_hits : List Candidate → List Candidate
unfolding insert_hit
sort_hits [] = []
sort_hits (c ∷ cs) = insert_hit c (sort_hits cs)

-- `strings.Join(names, ", ")`
unfoldable join_names : List String → String
join_names [] = ""
join_names (n ∷ []) = n
join_names (n ∷ (m ∷ ms)) = n +s (", " +s join_names (m ∷ ms))

pub data Resolution : Type 0 where
  found : Candidate → Resolution
  ambiguous : List Candidate → Resolution
  refused : GoError → Resolution

-- What the hits of a tier lead to; without one the loop goes on.
unfoldable pub pick : List Candidate → Resolution → Resolution
unfolding sort_hits
pick [] next = next
pick (c ∷ []) next = found c
pick (c ∷ (d ∷ ds)) next = ambiguous (sort_hits (c ∷ (d ∷ ds)))

-- The loop over the tiers; `rest` is what follows it.
unfoldable pub choose : List (Candidate → Bool) → List Candidate → Resolution → Resolution
unfolding hits_of pick
choose [] pool rest = rest
choose (match ∷ ms) pool rest = pick (hits_of match pool) (choose ms pool rest)

unfoldable pub no_match : String → List Candidate → String → GoError
unfolding sort_names join_names
no_match arg pool what =
    let names = sort_names (map (λ c. c.name) pool) in
    let hint : String = elim names [ [] ↦ "" | n ∷ ns ↦ "known: " +s join_names (n ∷ ns) ] in
    typed not_found hint ("no " +s (what +s (" matches " +s quoted arg)))

unfoldable pub resolve : String → List Candidate → String → Resolution
unfolding find_id choose no_match
resolve arg pool what =
    if str_eq arg ""
    then refused (typed invalid "" ("a " +s (what +s " name or UUID is required")))
    else elim (find_id arg pool) [
      | some c ↦ found c
      | none ↦ choose (tiers arg) pool (refused (no_match arg pool what))
    ]

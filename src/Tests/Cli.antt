-- ===== src/Tests/Cli.antt =====
-- The sanitizing writer and the choice of a candidate at concrete inputs.
use better_nm.Prelude.{ℕ, List, [], ◌∷◌, true, false, ◌≡◌, ◌⊎◌, refl}
use better_nm.Cli.Safe.{plain, sanitize, write_all, sgr_end, scan_params, write, flush}
use better_nm.Cli.Safe.Controls.{has_c1, all_paired, write_all-controls}
use better_nm.Cli.Safe.Output.{text, is_safe}
use better_nm.Cli.Safe.Chunks.{concat, write_all-sanitize, c1_leaks}
use better_nm.Cli.Resolve.{
  Candidate, found, ambiguous, resolve, find_id, exact, folded, id_prefix, name_prefix, choose,
  hits_of, pick,
}
use better_nm.Cli.Resolve.Choice.{resolve-IsBest}
use better_nm.Cli.Resolve.Levels.{level, IsBest}

-- "a", a bell, a colour code cut in two, and the start of another sequence.
abbrev writes : List (List ℕ)
writes = (97 ∷ 7 ∷ 27 ∷ 91 ∷ 51 ∷ []) ∷ ((49 ∷ 109 ∷ 98 ∷ []) ∷ ((27 ∷ 93 ∷ 48 ∷ []) ∷ []))

-- "a", a no-break space, an 8-bit CSI that is dropped, and "b" in another write.
abbrev eight_bit : List (List ℕ)
eight_bit = (97 ∷ 194 ∷ 160 ∷ 194 ∷ 155 ∷ []) ∷ ((98 ∷ []) ∷ [])

write_all-controls_example :
    let out = write_all [] eight_bit in
    (is_safe text out ≡ true) × ((has_c1 out ≡ false) ⊎ (all_paired ([] ∷ eight_bit) ≡ false))
write_all-controls_example = write_all-controls [] eight_bit

eight_bit-paired : all_paired ([] ∷ eight_bit) ≡ true
eight_bit-paired = refl

write_all-sanitize_example : write_all [] writes ≡ (sanitize true plain (concat writes)).0
write_all-sanitize_example = write_all-sanitize writes (refl, (refl, (refl, tt)))

-- The colour code is kept, the bell and the ESC are not.
writes_shown : write_all [] writes ≡ 97 ∷ 27 ∷ 91 ∷ 51 ∷ 49 ∷ 109 ∷ 98 ∷ 93 ∷ 48 ∷ []
unfolding write_all write flush sanitize sgr_end scan_params
writes_shown = refl

c1_leaks_example : sanitize true plain (194 ∷ (7 ∷ (155 ∷ []))) ≡ (194 ∷ (155 ∷ []), [])
c1_leaks_example = c1_leaks true 7 155 refl refl refl

abbrev home : Candidate
home = record { id = "8694ab34"; name = "Home"; kind = "wifi profile"; ssid = "home-net" }

abbrev homelab : Candidate
homelab = record { id = "91aa0c11"; name = "Homelab"; kind = "wired profile"; ssid = "" }

abbrev pool : List Candidate
pool = home ∷ (homelab ∷ [])

resolve-IsBest_example : IsBest (level "home") 5 pool (resolve "home" pool "profile")
resolve-IsBest_example = resolve-IsBest "home" pool "profile" refl

-- Up to case the argument is the name of one, and a prefix of the other's.
home_found : resolve "home" pool "profile" ≡ found home
unfolding resolve find_id choose hits_of pick exact folded id_prefix name_prefix
home_found = refl

-- A prefix of both names.
ho_ambiguous : resolve "ho" pool "profile" ≡ ambiguous (home ∷ (homelab ∷ []))
unfolding resolve find_id choose hits_of pick exact folded id_prefix name_prefix
ho_ambiguous = refl

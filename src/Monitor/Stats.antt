-- ===== src/Monitor/Stats.antt =====
-- internal/monitor/engine.go: the statistics over a window of samples. `sort.Float64s` is an
-- insertion sort by `<`.
use better_nm.Prelude.{
  ℕ, ◌-◌, ◌/◌, ◌%◌, List, [], ◌∷◌, if◌then◌else◌, length, drop, ltb, ◌==◌, get_or,
}
use better_nm.Core.Monitor.{Sample}
use better_nm.Monitor.Floats.{Floats}

module _ {F : Type 0} ⦃fl : Floats F⦄ where
  open fl use {lt, le, plus, divided, of_ℕ, minus_one}

  unfoldable insert_float : F → List F → List F
  insert_float x [] = x ∷ []
  insert_float x (y ∷ ys) = if lt y x then y ∷ insert_float x ys else x ∷ (y ∷ ys)

  unfoldable sort_floats : List F → List F
  unfolding insert_float
  sort_floats [] = []
  sort_floats (x ∷ xs) = insert_float x (sort_floats xs)

  -- -1 for no values
  unfoldable median : List F → F
  unfolding sort_floats
  median [] = minus_one
  median (x ∷ xs) =
      let sorted = sort_floats (x ∷ xs) in
      let n = length sorted in
      if n % 2 == 1
      then get_or sorted (n / 2) minus_one
      else divided (plus (get_or sorted (n / 2 - 1) minus_one) (get_or sorted (n / 2) minus_one))
          (of_ℕ 2)

  -- The RTTs of the samples that were answered.
  unfoldable pub answered : List (Sample F) → List F
  answered [] = []
  answered (s ∷ ss) =
      let rest = answered ss in if le (of_ℕ 0) s.rtt_ms then s.rtt_ms ∷ rest else rest

  unfoldable pub median_rtt : List (Sample F) → F
  unfolding median answered
  median_rtt ss = median (answered ss)

  unfoldable sum_loss : F → List (Sample F) → F
  sum_loss acc [] = acc
  sum_loss acc (s ∷ ss) = sum_loss (plus acc s.loss) ss

  unfoldable pub mean_loss : List (Sample F) → F
  unfolding sum_loss
  mean_loss [] = of_ℕ 0
  mean_loss (s ∷ ss) = divided (sum_loss (of_ℕ 0) (s ∷ ss)) (of_ℕ (length (s ∷ ss)))

  -- The last DNS measurement; the code walks from the newest sample back.
  unfoldable pub last_dns : F → List (Sample F) → F
  last_dns dns [] = dns
  last_dns dns (s ∷ ss) = last_dns (if le (of_ℕ 0) s.dns_ms then s.dns_ms else dns) ss

  -- The last `current_window` samples.
  unfoldable pub current : ℕ → List (Sample F) → List (Sample F)
  current n ss = if ltb n (length ss) then drop (length ss - n) ss else ss

-- ===== src/Notify/Policy.antt =====
-- internal/notify/policy.go: which events are notable.
use mathlib.Core.Option
use better_nm.Prelude.{
  ℕ, String, List, [], ◌∷◌, Bool, true, false, Assoc, lookup, str_eq, if◌then◌else◌,
}
use better_nm.Core.Event.{
  EventType, type_name, connected, disconnected, no_internet, internet_restored, vpn_up, vpn_down,
  degraded, recovered, secret_needed,
}

-- The two durations are in nanoseconds; a negative one acts as 0 wherever the code tests it.
pub record Policy : Type 0 where
  pub enabled : Assoc Bool
  pub muted_networks : List String
  pub debounce : ℕ
  pub rate_limit : ℕ

abbrev pub second : ℕ
second = 1_000_000_000

unfoldable pub default_policy : Policy
default_policy = record {
  enabled =
      (type_name connected, true)
      ∷ (type_name disconnected, true)
      ∷ (type_name no_internet, true)
      ∷ (type_name internet_restored, true)
      ∷ (type_name vpn_up, true)
      ∷ (type_name vpn_down, true)
      ∷ (type_name degraded, false)
      ∷ (type_name recovered, false)
      ∷ (type_name secret_needed, true)
      ∷ [];
  muted_networks = [];
  debounce = 5_000_000_000;
  rate_limit = 30_000_000_000;
}

-- `p.Enabled[t]`: a type that is absent from the map is off.
unfoldable pub is_enabled : Policy → EventType → Bool
is_enabled p t = Option.get_or (lookup (type_name t) p.enabled) false

unfoldable pub mem_text : String → List String → Bool
mem_text key [] = false
mem_text key (m ∷ ms) = if str_eq m key then true else mem_text key ms

unfoldable pub is_muted : Policy → String → Bool
unfolding mem_text
is_muted p key = if str_eq key "" then false else mem_text key p.muted_networks

-- ===== src/Notify/RateKey.antt =====
-- internal/notify/filter.go, `rateKey`: the type and the Network Key joined by a NUL.
use Prim.Native.Char.{Char, code}
use text.Mathlib.TextLemmas.{
  nil-append, cons-append, append_cancel_left, head-eq_of_cons-eq, cons-eq-cons,
}
use better_nm.Prelude.{
  String, ◌≡◌, refl, sym, ◌∙◌, Bool, false, Option, some, none, arith, ap, ◌==◌, ◌||◌, str_eq,
  if◌then◌else◌, ◌+s◌,
}
use better_nm.Core.Event.{
  Event, EventType, type_name, connected, disconnected, no_internet, internet_restored, vpn_up,
  vpn_down, degraded, recovered, wifi_scan, state_changed, secret_needed, secret_resolved,
}

abbrev nul : String
nul = "\0"

unfoldable pub rate_key : Event → String
rate_key e = ◌+s◌ (type_name e.type) (◌+s◌ nul e.network_key)

abbrev has_nul : String → Bool
has_nul String.[] = false
has_nul (String.◌∷◌ c s) = code c == 0 || has_nul s

-- A text that starts with a NUL starts with no other character.
nul_head : (c : Char) (s j : String) → (code c == 0) ≡ false → ◌+s◌ nul j ≡ String.◌∷◌ c s → ⊥
nul_head c s j h e =
    let first = head-eq_of_cons-eq (sym (cons-append _ _ j) ∙ e) in ground (arith, ap code first)

-- Texts without a NUL are told apart in front of one.
nul_split :
    (s t j k : String)
    → has_nul s ≡ false
    → has_nul t ≡ false
    → ◌+s◌ s (◌+s◌ nul j) ≡ ◌+s◌ t (◌+s◌ nul k)
    → (s ≡ t) × (j ≡ k)
nul_split String.[] String.[] j k p q e =
    (refl, append_cancel_left nul j k (sym (nil-append _) ∙ e ∙ nil-append _))
nul_split String.[] (String.◌∷◌ c t) j k p q e =
    absurd (nul_head c _ j (ground arith) (sym (nil-append _) ∙ e ∙ cons-append c t _))
nul_split (String.◌∷◌ c s) String.[] j k p q e =
    absurd (nul_head c _ k (ground arith) (sym (nil-append _) ∙ sym e ∙ cons-append c s _))
nul_split (String.◌∷◌ c s) (String.◌∷◌ d t) j k p q e =
    let (first, rest) = cons-eq-cons.0 (sym (cons-append c s _) ∙ e ∙ cons-append d t _) in
    let (same, keys) = nul_split s t j k (ground arith) (ground arith) rest in
    (cons-eq-cons.1 (first, same), keys)

type_of_name : String → Option EventType
type_of_name s =
    if str_eq s "connected"
    then some connected
    else if str_eq s "disconnected"
    then some disconnected
    else if str_eq s "no-internet"
    then some no_internet
    else if str_eq s "internet-restored"
    then some internet_restored
    else if str_eq s "vpn-up"
    then some vpn_up
    else if str_eq s "vpn-down"
    then some vpn_down
    else if str_eq s "degraded"
    then some degraded
    else if str_eq s "recovered"
    then some recovered
    else if str_eq s "wifi-scan"
    then some wifi_scan
    else if str_eq s "state-changed"
    then some state_changed
    else if str_eq s "secret-needed"
    then some secret_needed
    else if str_eq s "secret-resolved"
    then some secret_resolved
    else none

type_of_name-type_name : (t : EventType) → type_of_name (type_name t) ≡ some t
unfolding type_of_name
type_of_name-type_name connected = refl
type_of_name-type_name _ = refl

type_name_no_nul : (t : EventType) → has_nul (type_name t) ≡ false
type_name_no_nul connected = refl
type_name_no_nul _ = refl

type_name_inj : (s t : EventType) → type_name s ≡ type_name t → s ≡ t
type_name_inj s t e = cc (type_of_name-type_name s, type_of_name-type_name t, ap type_of_name e)

-- The rate key tells events apart that differ in their type or their Network Key.
pub rate_key_inj :
    (a b : Event) → rate_key a ≡ rate_key b → (a.type ≡ b.type) × (a.network_key ≡ b.network_key)
unfolding rate_key
rate_key_inj a b e =
    let (names, keys) =
      nul_split (type_name a.type) (type_name b.type) _ _ (type_name_no_nul _) (type_name_no_nul _)
        e in
    (type_name_inj _ _ names, keys)

-- ===== src/Nm/Settings/Ip.antt =====
-- internal/nm/settings.go: the ipv4 and ipv6 settings. Package netip's parsers and its printer are
-- the interface `Netip`.
use better_nm.Prelude.{
  ℕ, String, List, [], ◌∷◌, Bool, true, false, not, ◌&&◌, ◌||◌, ◌==◌, Option, none, some, Assoc,
  lookup, insert, erase, length, str_eq, if◌then◌else◌, ◌+s◌,
}
use better_nm.Vpn.WireGuard.Text.{trim}
use better_nm.Nm.Texts.{decimal}
use better_nm.Nm.Variant.{
  Value, text, bool, u32, strs, u32s, byte_lists, one, dicts, Props, as_str, as_u32, v_str, v_bool,
  v_strs, v_dicts, value_at,
}

-- An address: the four bytes of IPv4 as the machine's word, or the sixteen of IPv6 with the zone.
pub data IpAddr : Type 0 where
  v4 : ℕ → IpAddr
  v6 : List ℕ → String → IpAddr

pub record Netip : Type 0 where
  pub read_addr : String → Option IpAddr
  pub read_prefix : String → Option (IpAddr × ℕ)
  pub show_addr : IpAddr → String

pub record IpConfig : Type 0 where
  pub method : String
  pub addresses : List String
  pub gateway : String
  pub dns : List String
  pub dns_search : List String
  pub ignore_auto_dns : Bool
  pub never_default : Bool

-- What the code refuses, for its message.
pub data IpError : Type 0 where
  wrong_family bad_address bad_gateway bad_server : String → ℕ → IpError
  bad_family : ℕ → IpError

pub data IpResult {ℓ} (S : Type ℓ) : Type ℓ where
  denied : IpError → IpResult S
  got : S → IpResult S

-- What stands behind a check that may fail.
infixl 5 ◌>>=◌
abbrev pub ◌>>=◌ {ℓ κ} : {S : Type ℓ} {T : Type κ} → IpResult S → (S → IpResult T) → IpResult T
denied why >>= rest = denied why
got value >>= rest = rest value

-- `Is4` and `Is6`
abbrev pub is4 : IpAddr → Bool
is4 (v4 n) = true
is4 (v6 bs zone) = false

abbrev pub is_other : ℕ → IpAddr → Bool
is_other family a = ((family == 4) && not (is4 a)) || ((family == 6) && is4 a)

abbrev pub bit_len : IpAddr → ℕ
bit_len (v4 n) = 32
bit_len (v6 bs zone) = 128

-- `ip4ToU32` and `ip6ToBytes` of an address
abbrev word_of : IpAddr → Option ℕ
word_of (v4 n) = some n
word_of (v6 bs zone) = none

abbrev bytes_of : IpAddr → Option (List ℕ)
bytes_of (v4 n) = none
bytes_of (v6 bs zone) = some bs

module _ ⦃N : Netip⦄ where
  unfoldable pub ip4_from_u32 : ℕ → String
  ip4_from_u32 u = N.show_addr (v4 u)

  unfoldable pub ip4_to_u32 : String → Option ℕ
  ip4_to_u32 s = elim (N.read_addr s) [ none ↦ none | some a ↦ word_of a ]

  unfoldable pub ip6_from_bytes : List ℕ → String
  ip6_from_bytes b = if length b == 16 then N.show_addr (v6 b "") else ""

  unfoldable pub ip6_to_bytes : String → Option (List ℕ)
  ip6_to_bytes s = elim (N.read_addr s) [ none ↦ none | some a ↦ bytes_of a ]

  unfoldable pub split_cidr : String → ℕ → IpResult (String × ℕ)
  unfolding trim
  split_cidr cidr family =
      let c = trim cidr in
      elim (N.read_prefix c) [
        | some (a, bits) ↦
            if is_other family a then denied (wrong_family c family) else got (N.show_addr a, bits)
        | none ↦ elim (N.read_addr c) [
          | none ↦ denied (bad_address c family)
          | some a ↦
              if is_other family a
              then denied (wrong_family c family)
              else got (N.show_addr a, bit_len a)
        ]
      ]

  -- `addressData`
  unfoldable pub address_data : List (Assoc Value) → List String
  unfolding as_str as_u32 decimal
  address_data [] = []
  address_data (e ∷ es) =
      let rest = address_data es in
      let addr = as_str (lookup "address" e) in
      if str_eq addr ""
      then rest
      else (addr +s ("/" +s decimal (as_u32 (lookup "prefix" e)))) ∷ rest

  -- `makeAddressData`
  unfoldable pub make_address_data : List String → ℕ → IpResult (List (Assoc Value))
  unfolding split_cidr
  make_address_data [] family = got []
  make_address_data (c ∷ cs) family = do
    (addr, prefix) ← split_cidr c family
    rest ← make_address_data cs family
    got ((("address", text addr) ∷ (("prefix", u32 prefix) ∷ [])) ∷ rest)

  unfoldable pub words_text : List ℕ → List String
  unfolding ip4_from_u32
  words_text [] = []
  words_text (u ∷ us) = ip4_from_u32 u ∷ words_text us

  unfoldable pub byte_lists_text : List (List ℕ) → List String
  unfolding ip6_from_bytes
  byte_lists_text [] = []
  byte_lists_text (b ∷ bs) =
      let rest = byte_lists_text bs in
      let s = ip6_from_bytes b in if str_eq s "" then rest else s ∷ rest

  abbrev is_true : Option Bool → Bool
  is_true (some true) = true
  is_true _ = false

  abbrev pub dns_of : ℕ → Option Value → List String
  dns_of family (some (u32s us)) = if family == 4 then words_text us else []
  dns_of family (some (byte_lists bs)) = if family == 6 then byte_lists_text bs else []
  dns_of family _ = []

  unfoldable pub decode_ip_config : Props → ℕ → IpConfig
  unfolding v_str v_bool v_strs v_dicts value_at address_data words_text byte_lists_text
  decode_ip_config m family = record {
    method = v_str m "method";
    addresses = address_data (v_dicts m "address-data");
    gateway = v_str m "gateway";
    dns = dns_of family (value_at "dns" m);
    dns_search = v_strs m "dns-search";
    ignore_auto_dns = is_true (v_bool m "ignore-auto-dns");
    never_default = is_true (v_bool m "never-default");
  }

  -- The loops over the DNS servers.
  unfoldable pub read_words : List String → IpResult (List ℕ)
  unfolding ip4_to_u32
  read_words [] = got []
  read_words (s ∷ ss) = elim (ip4_to_u32 s) [
    | none ↦ denied (bad_server s 4)
    | some u ↦ do us ← read_words ss; got (u ∷ us)
  ]

  unfoldable pub read_byte_lists : List String → IpResult (List (List ℕ))
  unfolding ip6_to_bytes
  read_byte_lists [] = got []
  read_byte_lists (s ∷ ss) = elim (ip6_to_bytes s) [
    | none ↦ denied (bad_server s 6)
    | some b ↦ do bs ← read_byte_lists ss; got (b ∷ bs)
  ]

  unfoldable pub encode_dns : List String → ℕ → IpResult Value
  unfolding read_words read_byte_lists
  encode_dns dns family =
      if family == 4
      then (do us ← read_words dns; got (u32s us))
      else if family == 6
      then (do bs ← read_byte_lists dns; got (byte_lists bs))
      else denied (bad_family family)

  unfoldable pub encode_gateway : String → ℕ → Props → IpResult Props
  encode_gateway gateway family m =
      if str_eq gateway "" then got m else elim (N.read_addr gateway) [
        | none ↦ denied (bad_gateway gateway family)
        | some a ↦
            if is_other family a
            then denied (bad_gateway gateway family)
            else got (insert "gateway" (one (text (N.show_addr a))) m)
      ]

  -- `ipKeysOwned`
  abbrev pub ip_keys_owned : List String
  ip_keys_owned =
      "method"
      ∷ ("address-data"
          ∷ ("addresses"
              ∷ ("gateway"
                  ∷ ("routes"
                      ∷ ("dns" ∷ ("dns-search" ∷ ("ignore-auto-dns" ∷ ("never-default" ∷ []))))))))

  unfoldable pub erase_all : List String → Props → Props
  erase_all [] m = m
  erase_all (k ∷ ks) m = erase_all ks (erase k m)

  -- The method that is written.
  unfoldable pub method_of : IpConfig → String
  method_of cfg =
      if str_eq cfg.method ""
      then if length cfg.addresses == 0 then "auto" else "manual"
      else cfg.method

  unfoldable pub encode_ip_config : Props → IpConfig → ℕ → IpResult Props
  unfolding erase_all make_address_data encode_gateway encode_dns method_of
  encode_ip_config existing cfg family = do
    let kept = insert "method" (one (text (method_of cfg))) (erase_all ip_keys_owned existing)
    ad ← make_address_data cfg.addresses family
    addressed ← encode_gateway cfg.gateway family (insert "address-data" (dicts ad) kept)
    dns ← encode_dns cfg.dns family
    got (
        insert "never-default" (one (bool cfg.never_default)) (
          insert "ignore-auto-dns" (one (bool cfg.ignore_auto_dns))
            (insert "dns-search" (one (strs cfg.dns_search)) (insert "dns" (one dns) addressed))))

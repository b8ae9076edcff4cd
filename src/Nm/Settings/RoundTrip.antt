-- ===== src/Nm/Settings/RoundTrip.antt =====
-- An IP setting that is written is read back, and the keys that bnm does not own are kept.
use better_nm.Prelude.{
  ℕ, String, List, [], ◌∷◌, true, false, none, some, Assoc, lookup, insert, erase, lookup-insert,
  lookup-erase, length, any, All, str_eq, if◌then◌else◌, ◌+s◌, ◌≡◌, refl, ap, arith, eq_iff,
  Bool-cases, Option-cases, ◌⊎◌, inl, inr,
}
use better_nm.Nm.Texts.{decimal}
use better_nm.Nm.Variant.{
  Value, text, bool, u32, strs, Variant, one, dicts, Props, as_str, as_u32, v_str, value_at,
}
use better_nm.Nm.Settings.Ip.{
  IpAddr, v4, v6, Netip, IpConfig, IpResult, got, denied, ◌>>=◌, is_other, ip4_from_u32, ip4_to_u32,
  ip6_from_bytes, ip6_to_bytes, split_cidr, address_data, make_address_data, words_text,
  byte_lists_text, read_words, read_byte_lists, encode_dns, encode_gateway, ip_keys_owned,
  erase_all, method_of, encode_ip_config,
}

-- A chain that gives a value has a first part that gives one.
pub >>=-eq-got {ℓ κ} :
    {S : Type ℓ} {T : Type κ} (first : IpResult S) (rest : S → IpResult T) {t : T}
    → (first >>= rest) ≡ got t
    → (s : S) × (first ≡ got s) × (rest s ≡ got t)
>>=-eq-got (denied why) rest h = cc
>>=-eq-got (got s) rest h = (s, refl, h)

pub lookup-erase_all :
    ⦃N : Netip⦄ (ks : List String) (m : Props) (k : String)
    → lookup k (erase_all ks m) ≡ (if any (str_eq k) ks then none else lookup k m)
unfolding erase_all
lookup-erase_all [] m k = refl
lookup-erase_all (j ∷ ks) m k =
    ground (arith, lookup-erase_all ks (erase j m) k, lookup-erase j k m, eq_iff j k, eq_iff k j)

module _ ⦃N : Netip⦄ where
  -- An address with its prefix in the form that the decoder prints.
  abbrev IsCidr : ℕ → String → Type 0
  IsCidr family c =
      (addr : String) × (prefix : ℕ) × (split_cidr c family ≡ got (addr, prefix))
      × (str_eq addr "" ≡ false)
      × (c ≡ addr +s ("/" +s decimal prefix))

  abbrev IsWhole : IpAddr → Type 0
  IsWhole (v4 n) = Unit
  IsWhole (v6 bs zone) = (length bs ≡ 16) × (zone ≡ "")

  -- An address without a zone, in the form that is printed.
  abbrev pub IsServer : String → Type 0
  IsServer s =
      (a : IpAddr) × (N.read_addr s ≡ some a)
      × (N.show_addr a ≡ s)
      × IsWhole a
      × (str_eq s "" ≡ false)

  abbrev IsGateway : String → Type 0
  IsGateway s =
      (str_eq s "" ≡ true) ⊎ ((a : IpAddr) × (N.read_addr s ≡ some a) × (N.show_addr a ≡ s))

  pub record IsPrinted (family : ℕ) (cfg : IpConfig) : Type 0 where
    pub addresses : All (IsCidr family) cfg.addresses
    pub gateway : IsGateway cfg.gateway
    pub dns : All IsServer cfg.dns

  pub addresses_back :
      (cs : List String) (family : ℕ) (ad : List (Assoc Value))
      → All (IsCidr family) cs
      → make_address_data cs family ≡ got ad
      → address_data ad ≡ cs
  unfolding make_address_data address_data lookup as_str as_u32
  addresses_back [] family ad h e = ground arith
  addresses_back (c ∷ cs) family ad ((addr, prefix, split, full, shape), hs) e =
      let (r, made, tail) =
        >>=-eq-got (make_address_data cs family)
          (λ rest. got ((("address", text addr) ∷ (("prefix", u32 prefix) ∷ [])) ∷ rest))
          (rw (split, make_address_data) at e) in
      let rest = addresses_back cs family r hs made in ground arith

  pub words_back :
      (ss : List String) (us : List ℕ)
      → All IsServer ss
      → read_words ss ≡ got us
      → words_text us ≡ ss
  unfolding read_words words_text ip4_from_u32 ip4_to_u32
  words_back [] us h e = ground arith
  words_back (s ∷ ss) us ((v4 n, read, shown, whole, full), hs) e =
      let (r, made, tail) =
        >>=-eq-got (read_words ss) (λ rest. got (n ∷ rest)) (rw (read, read_words) at e) in
      let rest = words_back ss r hs made in ground arith
  words_back (s ∷ ss) us ((v6 bs zone, read, shown, whole, full), hs) e = absurd (ground arith)

  pub byte_lists_back :
      (ss : List String) (bs : List (List ℕ))
      → All IsServer ss
      → read_byte_lists ss ≡ got bs
      → byte_lists_text bs ≡ ss
  unfolding read_byte_lists byte_lists_text ip6_from_bytes ip6_to_bytes
  byte_lists_back [] us h e = ground arith
  byte_lists_back (s ∷ ss) us ((v4 n, read, shown, whole, full), hs) e = absurd (ground arith)
  byte_lists_back (s ∷ ss) us ((v6 bs zone, read, shown, whole, full), hs) e =
      let (r, made, tail) =
        >>=-eq-got (read_byte_lists ss) (λ rest. got (bs ∷ rest))
          (rw (read, read_byte_lists) at e) in
      let rest = byte_lists_back ss r hs made in
      ground (arith, ap (λ z. N.show_addr (v6 bs z)) whole.1)

  pub lookup-encode_gateway :
      (g : String) (family : ℕ) (m m' : Props) (k : String)
      → encode_gateway g family m ≡ got m'
      → (str_eq k "gateway" ≡ false → lookup k m' ≡ lookup k m)
        × (IsGateway g → lookup "gateway" m ≡ none → v_str m' "gateway" ≡ g)
  unfolding encode_gateway v_str value_at as_str
  lookup-encode_gateway g family m m' k e = elim (Bool-cases (str_eq g "")) [
    | inl empty ↦ (λ other. ground arith, λ shown free. ground (arith, eq_iff g ""))
    | inr full ↦ elim (Option-cases (N.read_addr g)) [
      | inl unreadable ↦ absurd (ground arith)
      | inr (a, read) ↦ elim (Bool-cases (is_other family a)) [
        | inl wrong ↦ absurd (ground arith)
        | inr right ↦
            let v : Variant = one (text (N.show_addr a)) in
            let written : m' ≡ insert "gateway" v m = ground arith in
            (
              λ other. rw written (
                  ground
                    (arith, lookup-insert "gateway" k v m, eq_iff "gateway" k, eq_iff k "gateway")),
              λ shown free. elim shown [
                | inl no_gateway ↦ absurd (ground arith)
                | inr (b, read_b, show_b) ↦
                    rw written (ground (arith, lookup-insert "gateway" "gateway" v m))
              ],
            )
      ]
    ]
  ]

  -- What a successful `encode_ip_config` has built.
  pub record Built (existing : Props) (cfg : IpConfig) (family : ℕ) (m : Props) : Type 0 where
    pub ad : List (Assoc Value)
    pub addressed : Props
    pub servers : Value
    pub made : make_address_data cfg.addresses family ≡ got ad
    pub routed :
        encode_gateway cfg.gateway family (
          insert "address-data"
            (dicts ad)
            (insert "method" (one (text (method_of cfg))) (erase_all ip_keys_owned existing)))
        ≡ got addressed
    pub named : encode_dns cfg.dns family ≡ got servers
    pub whole :
        m
        ≡ insert "never-default" (one (bool cfg.never_default)) (
            insert "ignore-auto-dns" (one (bool cfg.ignore_auto_dns)) (
              insert "dns-search"
                (one (strs cfg.dns_search))
                (insert "dns" (one servers) addressed)))

  pub encode-Built :
      (existing : Props) (cfg : IpConfig) (family : ℕ) (m : Props)
      → encode_ip_config existing cfg family ≡ got m
      → Built existing cfg family m
  unfolding encode_ip_config
  encode-Built existing cfg family m e =
      let (ad, made, e₁) = >>=-eq-got (make_address_data cfg.addresses family) _ e in
      let (addressed, routed, e₂) = >>=-eq-got (encode_gateway cfg.gateway family _) _ e₁ in
      let (servers, named, e₃) = >>=-eq-got (encode_dns cfg.dns family) _ e₂ in
      record {
        ad = ad;
        addressed = addressed;
        servers = servers;
        made = made;
        routed = routed;
        named = named;
        whole = ground arith;
      }

-- ===== src/Nm/Settings/Written.antt =====
-- The setting that was written, key by key.
use better_nm.Prelude.{
  ℕ, String, [], ◌∷◌, false, some, lookup, insert, lookup-insert, any, str_eq, ◌≡◌, refl, ◌∙◌,
  arith, eq_iff,
}
use better_nm.Nm.Variant.{text, bool, strs, one, dicts, Props}
use better_nm.Nm.Settings.Ip.{Netip, IpConfig, ip_keys_owned, erase_all, method_of}
use better_nm.Nm.Settings.RoundTrip.{lookup-erase_all, lookup-encode_gateway, Built}

module _ ⦃N : Netip⦄ (existing : Props) (cfg : IpConfig) (family : ℕ) (m : Props)
    (b : Built existing cfg family m) where
  open b use {ad, addressed, servers, made, routed, named, whole}

  abbrev pub under : Props
  under = insert "method" (one (text (method_of cfg))) (erase_all ip_keys_owned existing)

  abbrev routed_on : Props
  routed_on = insert "dns-search" (one (strs cfg.dns_search)) (insert "dns" (one servers) addressed)

  -- What stands under a key that is none of the last four.
  pub lookup-below :
      (k : String)
      → any (str_eq k) ("never-default" ∷ ("ignore-auto-dns" ∷ ("dns-search" ∷ ("dns" ∷ []))))
        ≡ false
      → lookup k m ≡ lookup k addressed
  lookup-below k h = rw whole (
      ground (
        arith,
        lookup-insert "never-default" k (one (bool cfg.never_default))
            (insert "ignore-auto-dns" (one (bool cfg.ignore_auto_dns)) routed_on),
        lookup-insert "ignore-auto-dns" k (one (bool cfg.ignore_auto_dns)) routed_on,
        lookup-insert "dns-search" k (one (strs cfg.dns_search))
            (insert "dns" (one servers) addressed),
        lookup-insert "dns" k (one servers) addressed,
        eq_iff "never-default" k,
        eq_iff k "never-default",
        eq_iff "ignore-auto-dns" k,
        eq_iff k "ignore-auto-dns",
        eq_iff "dns-search" k,
        eq_iff k "dns-search",
        eq_iff "dns" k,
        eq_iff k "dns",
      ))

  -- The last four keys.
  pub lookup-last :
      (lookup "never-default" m ≡ some (one (bool cfg.never_default)))
      × (lookup "ignore-auto-dns" m ≡ some (one (bool cfg.ignore_auto_dns)))
      × (lookup "dns-search" m ≡ some (one (strs cfg.dns_search)))
      × (lookup "dns" m ≡ some (one servers))
  lookup-last =
      let below = insert "ignore-auto-dns" (one (bool cfg.ignore_auto_dns)) routed_on in
      let at =
        λ (k : String). lookup-insert "never-default" k (one (bool cfg.never_default)) below in
      let at₁ = λ (k : String).
        lookup-insert "ignore-auto-dns" k (one (bool cfg.ignore_auto_dns)) routed_on in
      let at₂ = λ (k : String).
        lookup-insert "dns-search" k (one (strs cfg.dns_search))
          (insert "dns" (one servers) addressed) in
      let at₃ = λ (k : String). lookup-insert "dns" k (one servers) addressed in
      (
        rw whole (at "never-default"),
        rw whole (at "ignore-auto-dns" ∙ at₁ "ignore-auto-dns"),
        rw whole (at "dns-search" ∙ at₁ "dns-search" ∙ at₂ "dns-search"),
        rw whole (at "dns" ∙ at₁ "dns" ∙ at₂ "dns" ∙ at₃ "dns"),
      )

  gateway_keys :
      (k : String)
      → str_eq k "gateway" ≡ false
      → lookup k addressed ≡ lookup k (insert "address-data" (dicts ad) under)
  gateway_keys k other = (lookup-encode_gateway cfg.gateway family _ addressed k routed).0 other

  -- The keys of the method and of the addresses.
  pub lookup-first :
      (lookup "method" m ≡ some (one (text (method_of cfg))))
      × (lookup "address-data" m ≡ some (dicts ad))
  lookup-first =
      let erased = erase_all ip_keys_owned existing in
      let at = λ (k : String). lookup-insert "address-data" k (dicts ad) under in
      let at₁ = λ (k : String). lookup-insert "method" k (one (text (method_of cfg))) erased in
      (
        lookup-below "method" refl ∙ gateway_keys "method" refl ∙ at "method" ∙ at₁ "method",
        lookup-below "address-data" refl ∙ gateway_keys "address-data" refl ∙ at "address-data",
      )

  pub lookup-kept :
      (k : String) → any (str_eq k) ip_keys_owned ≡ false → lookup k m ≡ lookup k existing
  lookup-kept k other =
      let erased = erase_all ip_keys_owned existing in
      let below : lookup k m ≡ lookup k addressed = lookup-below k (ground arith) in
      let beside : lookup k addressed ≡ lookup k (insert "address-data" (dicts ad) under) =
        gateway_keys k (ground arith) in
      ground (
        arith,
        lookup-insert "address-data" k (dicts ad) under,
        lookup-insert "method" k (one (text (method_of cfg))) erased,
        lookup-erase_all ip_keys_owned existing k,
        eq_iff "address-data" k,
        eq_iff k "address-data",
        eq_iff "method" k,
        eq_iff k "method",
      )

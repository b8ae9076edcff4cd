-- ===== src/Nm/Settings/Decoded.antt =====
-- The IP setting that was written, read back.
use better_nm.Prelude.{
  ℕ, String, List, false, ◌==◌, none, some, lookup, insert, any, All, str_eq, lookup-insert, ◌≡◌,
  refl, ap, ◌∙◌, arith, Bool-cases, inl, inr,
}
use better_nm.Nm.Variant.{
  Value, other, text, u32s, byte_lists, one, dicts, Props, as_str, v_str, v_bool, v_strs, v_dicts,
  value_at, as_bool, as_strs,
}
use better_nm.Nm.Settings.Ip.{
  Netip, IpConfig, got, decode_ip_config, dns_of, read_words, read_byte_lists, encode_dns,
  ip_keys_owned, method_of, encode_ip_config, erase_all,
}
use better_nm.Nm.Settings.RoundTrip.{
  >>=-eq-got, lookup-erase_all, IsPrinted, IsServer, addresses_back, words_back, byte_lists_back,
  lookup-encode_gateway, Built, encode-Built,
}
use better_nm.Nm.Settings.Written.{lookup-below, lookup-last, lookup-first, lookup-kept}

module _ ⦃N : Netip⦄ where
  dns_back :
      (dns : List String) (family : ℕ) (v : Value)
      → All IsServer dns
      → encode_dns dns family ≡ got v
      → dns_of family (some v) ≡ dns
  unfolding encode_dns
  dns_back dns family v h e = elim (Bool-cases (family == 4)) [
    | inl four ↦
        let (us, read, made) =
          >>=-eq-got (read_words dns) (λ us. got (u32s us)) (rw (four, encode_dns) at e) in
        let back = words_back dns us h read in ground arith
    | inr not_four ↦ elim (Bool-cases (family == 6)) [
      | inl six ↦
          let (bs, read, made) =
            >>=-eq-got (read_byte_lists dns) (λ bs. got (byte_lists bs))
              (rw (six, encode_dns) at (rw (not_four, encode_dns) at e)) in
          let back = byte_lists_back dns bs h read in ground arith
      | inr neither ↦ absurd (ground arith)
    ]
  ]

  module _ (existing : Props) (cfg : IpConfig) (family : ℕ) (m : Props) where
    gateway_back :
        Built existing cfg family m → IsPrinted family cfg → v_str m "gateway" ≡ cfg.gateway
    unfolding v_str value_at as_str
    gateway_back b p =
        let erased = erase_all ip_keys_owned existing in
        let method_first = insert "method" (one (text (method_of cfg))) erased in
        let free : lookup "gateway" (insert "address-data" (dicts b.ad) method_first) ≡ none =
          lookup-insert "address-data" "gateway" (dicts b.ad) method_first
          ∙ lookup-insert "method" "gateway" (one (text (method_of cfg))) erased
          ∙ lookup-erase_all ip_keys_owned existing "gateway" in
        let back =
          (lookup-encode_gateway cfg.gateway family _ b.addressed "gateway" b.routed).1 p.gateway
            free in
        ap
          (λ found.
            as_str
              (elim found [ none ↦ none | some (one v) ↦ some v | some (dicts ds) ↦ some other ]))
          (lookup-below existing cfg family m b "gateway" refl)
        ∙ back

    decode-Built :
        Built existing cfg family m
        → IsPrinted family cfg
        → decode_ip_config m family ≡ record cfg { method = method_of cfg }
    unfolding decode_ip_config v_str v_strs v_bool v_dicts value_at as_str as_strs as_bool
    decode-Built b p =
        let (never, ignored, search, servers) = lookup-last existing cfg family m b in
        let (method, addresses) = lookup-first existing cfg family m b in
        ground (
          arith,
          addresses_back cfg.addresses family b.ad p.addresses b.made,
          dns_back cfg.dns family b.servers p.dns b.named,
          gateway_back b p,
        )

  -- Writing the IP layer of a profile and reading it back gives what was written: if addresses,
  -- gateway and DNS servers are in the form in which netip prints them, and the servers have no zone,
  -- then what `encodeIPConfig` accepts is decoded to the same configuration, with the method that is
  -- implied if none is set; and every key that bnm does not own is kept as it was.
  pub encode-decode :
      (existing : Props) (cfg : IpConfig) (family : ℕ) (m : Props)
      → IsPrinted family cfg
      → encode_ip_config existing cfg family ≡ got m
      → (decode_ip_config m family ≡ record cfg { method = method_of cfg })
        × ((k : String) → any (str_eq k) ip_keys_owned ≡ false → lookup k m ≡ lookup k existing)
  encode-decode existing cfg family m p e =
      let b = encode-Built existing cfg family m e in
      (decode-Built existing cfg family m b p, lookup-kept existing cfg family m b)

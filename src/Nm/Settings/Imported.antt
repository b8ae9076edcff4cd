-- ===== src/Nm/Settings/Imported.antt =====
-- A new WireGuard profile, read back.
use better_nm.Prelude.{
  ℕ, ◌+◌, ◌<◌, String, List, [], ◌∷◌, Bool, none, Assoc, lookup, insert, map, All, str_eq, ◌+s◌,
  ◌≡◌, refl, arith, eq_iff, Bool-cases, Option-cases, ◌⊎◌, inl, inr,
}
use better_nm.Vpn.WireGuard.Spec.{WireGuardPeer, WireGuardSpec}
use better_nm.Nm.Consts.{setting_connection, setting_wireguard, setting_ipv4, setting_ipv6}
use better_nm.Nm.Settings.Ip.{Netip, IpError, IpResult, got, denied}
use better_nm.Nm.Settings.Profile.{decode_peers, decode_wireguard_setting}
use better_nm.Nm.Settings.Created.{
  made, peer_entry, peer_entries, new_wireguard, new_connection, new_ip_settings, part_addresses,
  part_servers, wireguard_parts, wireguard_settings,
}
use better_nm.Nm.Variant.{
  Value, SettingsDict, as_str, as_u32, as_strs, value_at, v_u32, v_dicts, section,
}

-- A number that fits into an unsigned word of 32 bits.
abbrev IsWord : ℕ → Type 0
IsWord n = n < 4294967296

-- A peer without its secret.
abbrev pub public_part : WireGuardPeer → WireGuardPeer
public_part p = record p { preshared_key = "" }

abbrev PeerFits : WireGuardPeer → Type 0
PeerFits p = IsWord p.persistent_keepalive

lookup-peer_entry :
    (p : WireGuardPeer)
    → PeerFits p
    → (as_str (lookup "public-key" (peer_entry p)) ≡ p.public_key)
      × (as_str (lookup "endpoint" (peer_entry p)) ≡ p.endpoint)
      × (as_strs (lookup "allowed-ips" (peer_entry p)) ≡ p.allowed_ips)
      × (as_u32 (lookup "persistent-keepalive" (peer_entry p)) ≡ p.persistent_keepalive)
unfolding peer_entry lookup insert as_str as_strs as_u32
lookup-peer_entry p small =
    (ground arith, ground (arith, eq_iff p.endpoint ""), ground arith, ground arith)

decode_peers-entries :
    (i : ℕ) (ps : List WireGuardPeer)
    → All PeerFits ps
    → (peer_entries i ps).1 ≡ none
    → decode_peers (peer_entries i ps).0 ≡ map public_part ps
unfolding peer_entries decode_peers
decode_peers-entries i [] fits h = refl
decode_peers-entries i (p ∷ ps) (fit, fits) h = elim (Bool-cases (str_eq p.public_key "")) [
  | inl keyless ↦ absurd (ground arith)
  | inr keyed ↦
      ground (arith, decode_peers-entries (i + 1) ps fits (ground arith), lookup-peer_entry p fit)
]

Ip-cases {ℓ} :
    {A : Type ℓ} (r : IpResult A) → ((a : A) × (r ≡ got a)) ⊎ ((e : IpError) × (r ≡ denied e))
Ip-cases (got a) = inl (a, refl)
Ip-cases (denied e) = inr (e, refl)

module _ ⦃N : Netip⦄ (spec : WireGuardSpec) where
  pub record Fits : Type 0 where
    pub listen_port : IsWord spec.listen_port
    pub fw_mark : IsWord spec.fw_mark
    pub mtu : IsWord spec.mtu
    pub peers : All PeerFits spec.peers

  numbers_back :
      (peers : List (Assoc Value))
      → Fits
      → (v_u32 (new_wireguard spec peers) "listen-port" ≡ spec.listen_port)
        × (v_u32 (new_wireguard spec peers) "fwmark" ≡ spec.fw_mark)
        × (v_u32 (new_wireguard spec peers) "mtu" ≡ spec.mtu)
        × (v_dicts (new_wireguard spec peers) "peers" ≡ peers)
  unfolding new_wireguard v_u32 v_dicts value_at lookup insert as_u32
  numbers_back peers f = elim (Option-cases spec.auto_default_route) [
    | inl default_route ↦ (ground arith, ground arith, ground arith, ground arith)
    | inr (b, set) ↦ (ground arith, ground arith, ground arith, ground arith)
  ]

  -- Only the parts that `wireguard_parts` puts together are ever made.
  parts-section :
      (op : String) (autoconnect : Bool) (uuid user : String) (peers : List (Assoc Value))
      (s : SettingsDict)
      → wireguard_parts op spec autoconnect uuid user peers ≡ made s
      → section setting_wireguard s ≡ new_wireguard spec peers
  unfolding wireguard_parts section lookup
  parts-section op autoconnect uuid user peers s h =
      elim (Ip-cases (part_addresses spec.addresses)) [
        | inr (e, bad) ↦ absurd (ground arith)
        | inl ((a4, a6), parted) ↦ elim (Ip-cases (part_servers spec.dns)) [
          | inr (e, bad) ↦ absurd (ground arith)
          | inl ((d4, d6), named) ↦ elim (Ip-cases (new_ip_settings a4 d4 spec.dns_search 4)) [
            | inr (e, bad) ↦ absurd (ground arith)
            | inl (ip4, four) ↦ elim (Ip-cases (new_ip_settings a6 d6 spec.dns_search 6)) [
              | inr (e, bad) ↦ absurd (ground arith)
              | inl (ip6, six) ↦
                  let whole : s
                      ≡ (setting_connection, new_connection spec autoconnect uuid user)
                        ∷ ((setting_wireguard, new_wireguard spec peers)
                            ∷ ((setting_ipv4, ip4) ∷ ((setting_ipv6, ip6) ∷ []))) =
                    ground arith in
                  rw whole refl
            ]
          ]
        ]
      ]

  -- A WireGuard profile that bnm has NetworkManager create reads back as it was asked for: if the
  -- settings are made and the numbers fit into 32 bits, the setting decodes to the port, the mark, the
  -- MTU and the peers of the specification, in order, with no key but the public ones.
  pub wireguard_settings-decode :
      (autoconnect : Bool) (uuid user : String) (s : SettingsDict)
      → wireguard_settings spec autoconnect uuid user ≡ made s
      → Fits
      → decode_wireguard_setting (section setting_wireguard s) ≡ record {
        listen_port = spec.listen_port;
        fw_mark = spec.fw_mark;
        mtu = spec.mtu;
        peers = map public_part spec.peers;
      }
  unfolding wireguard_settings decode_wireguard_setting
  wireguard_settings-decode autoconnect uuid user s h f =
      elim (Option-cases (peer_entries 0 spec.peers).1) [
        | inr (i, bad) ↦ absurd (ground arith)
        | inl keyed ↦
            let peers = (peer_entries 0 spec.peers).0 in
            let at =
              parts-section ("add wireguard " +s spec.name) autoconnect uuid user peers s
                (ground arith) in
            let (port, mark, mtu, entries) = numbers_back peers f in
            rw at (
              ground
                (arith, port, mark, mtu, entries, decode_peers-entries 0 spec.peers f.peers keyed))
      ]

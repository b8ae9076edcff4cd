-- ===== src/Nm/Settings/Created.antt =====
-- internal/nm/settings.go: the settings of new profiles.
use better_nm.Prelude.{
  ℕ, ◌+◌, ◌%◌, String, List, [], ◌∷◌, Bool, true, false, not, ◌&&◌, ◌||◌, ◌==◌, ltb, Option, none,
  some, Assoc, insert, length, str_eq, if◌then◌else◌, ◌+s◌,
}
use better_nm.Core.Device.{WifiSecurity, open_network, owe, wep, wpa_psk, sae, wpa_eap}
use better_nm.Core.Errors.{GoError}
use better_nm.Vpn.WireGuard.Spec.{WireGuardPeer, WireGuardSpec}
use better_nm.Nm.Consts.{
  setting_connection, setting_wifi, setting_wifi_security, setting_ipv4, setting_ipv6,
  setting_wireguard, type_wifi, type_wireguard, secret_flags_none,
}
use better_nm.Nm.Errors.{new_err, no_secrets, err_unsupported}
use better_nm.Nm.Mapping.{key_mgmt_for}
use better_nm.Nm.Settings.Ip.{
  v4, v6, Netip, IpConfig, IpError, wrong_family, bad_address, bad_gateway, bad_server, bad_family,
  IpResult, got, denied, split_cidr, encode_ip_config,
}
use better_nm.Nm.Texts.{decimal}
use better_nm.Nm.Variant.{
  Value, text, bool, u32, i32, bytes, strs, Variant, one, dicts, Props, SettingsDict,
}

pub data Made : Type 0 where
  made : SettingsDict → Made
  refused : GoError → Made

unfoldable wep_key_type : ℕ → ℕ
wep_key_type len = if (len == 5) || (len == 13) || (len == 10) || (len == 26) then 1 else 2

-- The user's own profile.
abbrev scoped : String → Props → Props
scoped user m =
    if not (str_eq user "")
    then insert "permissions" (one (strs (("user:" +s (user +s ":")) ∷ []))) m
    else m

-- A password that is missing is an error unless NetworkManager may ask for it.
abbrev is_missing : String → Bool → Bool
is_missing password prompt = str_eq password "" && not prompt

abbrev wifi_made : Props → Props → Props → SettingsDict
wifi_made conn wifi wsec =
    (setting_connection, conn)
    ∷ ((setting_wifi, insert "security" (one (text setting_wifi_security)) wifi)
        ∷ ((setting_wifi_security, wsec) ∷ []))

-- The last `switch` of `wifiPartialSettings`.
unfoldable wifi_secured :
    (String → List ℕ) → String → Props → Props → WifiSecurity → String → Bool → Made
unfolding key_mgmt_for wep_key_type new_err
wifi_secured encode ssid conn wifi sec password prompt =
    let op = "connect wifi " +s ssid in
    let base : Props = ("key-mgmt", one (text (key_mgmt_for sec))) ∷ [] in
    let psk : Made =
      if is_missing password prompt
      then refused (new_err op (some no_secrets) "this network needs a password")
      else let keyed =
          if not (str_eq password "") then insert "psk" (one (text password)) base else base in
        made (wifi_made conn wifi (insert "psk-flags" (one (u32 secret_flags_none)) keyed)) in
    elim sec [
      | open_network ↦ made ((setting_connection, conn) ∷ ((setting_wifi, wifi) ∷ []))
      | wpa_eap ↦
          refused (
            new_err op (some err_unsupported) "WPA-EAP (enterprise) networks are unsupported in v1")
      | wpa_psk ↦ psk
      | sae ↦ psk
      | wep ↦
          if is_missing password prompt
          then refused (new_err op (some no_secrets) "this network needs a WEP key")
          else (let keyed =
                if not (str_eq password "")
                then insert "wep-key-type" (one (u32 (wep_key_type (length (encode password)))))
                    (insert "wep-key0" (one (text password)) base)
                else base in
              made (
                wifi_made conn wifi (
                  insert "auth-alg" (one (text "open"))
                    (insert "wep-key-flags" (one (u32 secret_flags_none)) keyed))))
      | owe ↦ made (wifi_made conn wifi base)
    ]

unfoldable wifi_partial_settings :
    (String → List ℕ) → String → Bool → WifiSecurity → String → String → Bool → Made
unfolding wifi_secured
wifi_partial_settings encode ssid hidden sec password user prompt =
    let conn : Props =
      scoped user (("id", one (text ssid)) ∷ (("type", one (text type_wifi)) ∷ [])) in
    let wifi : Props =
      ("ssid", one (bytes (encode ssid))) ∷ (("mode", one (text "infrastructure")) ∷ []) in
    wifi_secured encode ssid conn (if hidden then insert "hidden" (one (bool true)) wifi else wifi)
      sec password prompt

abbrev put_number : String → ℕ → Props → Props
put_number k n m = if ltb 0 n then insert k (one (u32 (n % 4294967296))) m else m

abbrev put_route : Option Bool → Props → Props
put_route none m = m
put_route (some b) m =
    let t : Variant = one (i32 (if b then 1 else 0)) in
    insert "ip6-auto-default-route" t (insert "ip4-auto-default-route" t m)

-- One peer of a new profile.
unfoldable pub peer_entry : WireGuardPeer → Assoc Value
peer_entry p =
    let base : Assoc Value =
      ("public-key", text p.public_key) ∷ (("allowed-ips", strs p.allowed_ips) ∷ []) in
    let with_endpoint =
      if not (str_eq p.endpoint "") then insert "endpoint" (text p.endpoint) base else base in
    let with_keepalive =
      if ltb 0 p.persistent_keepalive
      then insert "persistent-keepalive" (u32 (p.persistent_keepalive % 4294967296)) with_endpoint
      else with_endpoint in
    if not (str_eq p.preshared_key "")
    then insert "preshared-key-flags" (u32 secret_flags_none)
        (insert "preshared-key" (text p.preshared_key) with_keepalive)
    else with_keepalive

-- The loop over the peers; the error is the number of a peer without a key.
unfoldable pub peer_entries : ℕ → List WireGuardPeer → List (Assoc Value) × Option ℕ
unfolding peer_entry
peer_entries i [] = ([], none)
peer_entries i (p ∷ ps) =
    let (rest, bad) = peer_entries (i + 1) ps in
    if str_eq p.public_key "" then ([], some i) else (peer_entry p ∷ rest, bad)

-- The message of an error of the IP settings; `%q` of a text without escapes. What netip says of
-- a bad address is left out, and family 0 is none.
unfoldable ip_error_text : IpError → String
unfolding decimal
ip_error_text (wrong_family c family) =
    "\"" +s (c +s ("\" is not an IPv" +s (decimal family +s " address")))
ip_error_text (bad_address c family) = "bad address \"" +s (c +s "\"")
ip_error_text (bad_gateway g family) =
    "bad IPv" +s (decimal family +s (" gateway \"" +s (g +s "\"")))
ip_error_text (bad_server d family) =
    if family == 0
    then "bad DNS server \"" +s (d +s "\"")
    else "bad IPv" +s (decimal family +s (" DNS server \"" +s (d +s "\"")))
ip_error_text (bad_family family) = "bad family " +s decimal family

module _ ⦃N : Netip⦄ where
  abbrev is_v4 : String → Bool
  is_v4 s = elim (N.read_addr s) [ none ↦ false | some (v4 n) ↦ true | some (v6 bs z) ↦ false ]

  -- The loops that part addresses and servers by family.
  unfoldable pub part_addresses : List String → IpResult (List String × List String)
  unfolding split_cidr
  part_addresses [] = got ([], [])
  part_addresses (a ∷ as_left) = elim (split_cidr a 0) [
    | denied e ↦ denied e
    | got (addr, prefix) ↦ elim (part_addresses as_left) [
      | denied e ↦ denied e
      | got (fours, sixes) ↦ got (if is_v4 addr then (a ∷ fours, sixes) else (fours, a ∷ sixes))
    ]
  ]

  unfoldable pub part_servers : List String → IpResult (List String × List String)
  part_servers [] = got ([], [])
  part_servers (d ∷ ds) = elim (N.read_addr d) [
    | none ↦ denied (bad_server d 0)
    | some a ↦ elim (part_servers ds) [
      | denied e ↦ denied e
      | got (fours, sixes) ↦ got (if is_v4 d then (d ∷ fours, sixes) else (fours, d ∷ sixes))
    ]
  ]

  abbrev ip_disabled : IpConfig
  ip_disabled = record {
    method = "disabled";
    addresses = [];
    gateway = "";
    dns = [];
    dns_search = [];
    ignore_auto_dns = false;
    never_default = false;
  }

  -- `ipCfg`
  unfoldable pub new_ip_settings : List String → List String → List String → ℕ → IpResult Props
  unfolding encode_ip_config
  new_ip_settings addrs dns search family =
      if length addrs == 0
      then encode_ip_config [] ip_disabled family
      else encode_ip_config []
          (record ip_disabled {
            method = "manual";
            addresses = addrs;
            dns = dns;
            dns_search = search;
          })
          family

  -- The wireguard setting of a new profile.
  unfoldable pub new_wireguard : WireGuardSpec → List (Assoc Value) → Props
  new_wireguard spec peers = insert "peers" (dicts peers) (
      put_route spec.auto_default_route (
        put_number "mtu" spec.mtu (
          put_number "fwmark" spec.fw_mark (
            put_number "listen-port" spec.listen_port (
              ("private-key", one (text spec.private_key))
              ∷ (("private-key-flags", one (u32 secret_flags_none)) ∷ []))))))

  unfoldable pub new_connection : WireGuardSpec → Bool → String → String → Props
  new_connection spec autoconnect uuid user = scoped user (
      ("type", one (text type_wireguard))
      ∷ (("id", one (text spec.name))
          ∷ (("uuid", one (text uuid))
              ∷ (("interface-name", one (text spec.interface_name))
                  ∷ (("autoconnect", one (bool autoconnect)) ∷ [])))))

  -- `wireguardSettings` behind its checks of the peers.
  unfoldable pub wireguard_parts :
      String → WireGuardSpec → Bool → String → String → List (Assoc Value) → Made
  unfolding part_addresses part_servers new_ip_settings new_wireguard new_connection ip_error_text
      new_err
  wireguard_parts op spec autoconnect uuid user peers = elim (part_addresses spec.addresses) [
    | denied e ↦ refused (new_err op none (ip_error_text e))
    | got (a4, a6) ↦ elim (part_servers spec.dns) [
      | denied e ↦ refused (new_err op none (ip_error_text e))
      | got (d4, d6) ↦ elim (new_ip_settings a4 d4 spec.dns_search 4) [
        | denied e ↦ refused (new_err op none (ip_error_text e))
        | got ip4 ↦ elim (new_ip_settings a6 d6 spec.dns_search 6) [
          | denied e ↦ refused (new_err op none (ip_error_text e))
          | got ip6 ↦ made (
              (setting_connection, new_connection spec autoconnect uuid user)
              ∷ ((setting_wireguard, new_wireguard spec peers)
                  ∷ ((setting_ipv4, ip4) ∷ ((setting_ipv6, ip6) ∷ []))))
        ]
      ]
    ]
  ]

  unfoldable pub wireguard_settings : WireGuardSpec → Bool → String → String → Made
  unfolding wireguard_parts peer_entries new_err
  wireguard_settings spec autoconnect uuid user =
      let op = "add wireguard " +s spec.name in
      if str_eq spec.name ""
      then refused (new_err op none "profile name is required")
      else if str_eq spec.interface_name ""
      then refused (new_err op none "interface name is required")
      else if str_eq spec.private_key ""
      then refused (new_err op none "private key is required")
      else let (peers, bad) = peer_entries 0 spec.peers in
        elim bad [
          | some i ↦ refused (new_err op none ("peer " +s (decimal i +s " has no public key")))
          | none ↦ wireguard_parts op spec autoconnect uuid user peers
        ]

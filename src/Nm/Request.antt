-- ===== src/Nm/Request.antt =====
-- internal/nm/agent.go: what a request for secrets asks, and what the answer sends back.
use better_nm.Prelude.{
  ℕ, ◌/◌, ◌%◌, String, List, [], ◌∷◌, Bool, true, false, not, ◌||◌, none, some, lookup, is_some,
  any, str_eq, ◌==◌, if◌then◌else◌,
}
use better_nm.Core.Secrets.{SecretField, SecretRequest}
use better_nm.Core.Vpn.{vpn_kind_for_service_type}
use better_nm.Infra.Classify.{strip}
use better_nm.Vpn.WireGuard.Text.{trim}
use better_nm.Nm.Texts.{has_prefix, has_suffix, contains, replace_char, upper_first, join}
use better_nm.Nm.Variant.{SettingsDict, section, as_bytes, value_at, v_str}
use better_nm.Nm.Consts.{
  setting_connection, setting_wifi, setting_wifi_security, setting_vpn, setting_wireguard,
}

-- A test of one bit of `flags`.
abbrev pub allow_interaction : ℕ → Bool
allow_interaction flags = flags % 2 == 1

abbrev pub request_new : ℕ → Bool
request_new flags = flags / 2 % 2 == 1

abbrev pub user_requested : ℕ → Bool
user_requested flags = flags / 4 % 2 == 1

unfoldable human_key : String → String
unfolding replace_char upper_first
human_key key =
    let s = replace_char 95 " " (replace_char 45 " " key) in
    if str_eq s "" then key else upper_first s

-- `isUser`: the keys that are shown as a plain user name.
abbrev is_user : String → Bool
is_user key =
    str_eq key "username" || str_eq key "user-name" || str_eq key "identity" || str_eq key "user"

abbrev labelled : String → String → Bool → SecretField
labelled key label secret = record { key = key; label = label; secret = secret }

unfoldable secret_field : String → Bool → SecretField
unfolding has_prefix has_suffix contains human_key
secret_field key vpn =
    if str_eq key "psk"
    then labelled key "Wi-Fi password" true
    else if has_prefix key "wep-key"
    then labelled key "WEP key" true
    else if str_eq key "password"
    then labelled key (if vpn then "VPN password" else "Password") true
    else if str_eq key "cert-pass"
    then labelled key "Certificate password" true
    else if str_eq key "http-proxy-password"
    then labelled key "HTTP proxy password" true
    else if str_eq key "challenge-response"
    then labelled key "One-time code / challenge response" true
    else if str_eq key "private-key-password" || str_eq key "phase2-private-key-password"
    then labelled key "Private key password" true
    else if str_eq key "private-key"
    then labelled key "Private key" true
    else if str_eq key "preshared-key" || has_suffix key ".preshared-key"
    then labelled key "Pre-shared key" true
    else if is_user key
    then labelled key "Username" false
    else labelled key (human_key key) (not (contains key "user" || contains key "identity"))

-- The loop over the hints: the keys, and the messages.
unfoldable hint_keys : List String → List String
unfolding strip trim
hint_keys [] = []
hint_keys (h ∷ hints) =
    let rest = hint_keys hints in
    if is_some (strip "x-vpn-message:" h)
    then rest
    else if not (str_eq (trim h) "")
    then trim h ∷ rest
    else rest

unfoldable hint_messages : List String → List String
unfolding strip trim
hint_messages [] = []
hint_messages (h ∷ hints) =
    let rest = hint_messages hints in
    elim (strip "x-vpn-message:" h) [
      | none ↦ rest
      | some m ↦ if not (str_eq (trim m) "") then trim m ∷ rest else rest
    ]

-- The key that is asked for when no hint names one.
unfoldable default_key : String → SettingsDict → String
unfolding v_str section
default_key setting conn =
    if str_eq setting setting_vpn
    then "password"
    else if str_eq setting setting_wireguard
    then "private-key"
    else if str_eq setting setting_wifi_security
    then if str_eq (v_str (section setting_wifi_security conn) "key-mgmt") "none"
      then "wep-key0"
      else "psk"
    else "password"

abbrev or_default : List String → String → List String
or_default [] key = key ∷ []
or_default keys key = keys

-- The last loop: each key once, as a field.
unfoldable fields_of : Bool → List String → List String → List SecretField
unfolding secret_field
fields_of vpn seen [] = []
fields_of vpn seen (k ∷ keys) =
    let rest = fields_of vpn (k ∷ seen) keys in
    if any (str_eq k) seen then fields_of vpn seen keys else secret_field k vpn ∷ rest

-- The reading of bytes as a text, and of a text as bytes, are package strings' and fmt's.
module _ (ssid_text : List ℕ → String) (encode : String → List ℕ) where
  unfoldable pub build_secret_request :
      String → SettingsDict → String → List String → ℕ → ℕ → ℕ → SecretRequest
  unfolding v_str section as_bytes value_at hint_keys hint_messages join default_key fields_of
  build_secret_request id conn setting hints flags now expires =
      let c = section setting_connection conn in
      let vpn = str_eq setting setting_vpn || str_eq setting setting_wireguard in
      record {
        id = id;
        connection_uuid = v_str c "uuid";
        connection_name = v_str c "id";
        ssid = elim (lookup setting_wifi conn) [
          | none ↦ ""
          | some w ↦ ssid_text (as_bytes encode (value_at "ssid" w))
        ];
        vpn = vpn;
        vpn_kind =
            if str_eq setting setting_vpn
            then vpn_kind_for_service_type (v_str (section setting_vpn conn) "service-type")
            else if str_eq setting setting_wireguard
            then "WireGuard"
            else "";
        setting_name = setting;
        fields = fields_of vpn [] (or_default (hint_keys hints) (default_key setting conn));
        message = join "\n" (hint_messages hints);
        request_new = request_new flags;
        user_requested = user_requested flags;
        created_at = now;
        expires_at = expires;
      }

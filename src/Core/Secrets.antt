-- ===== src/Core/Secrets.antt =====
-- internal/core/secrets.go: what NetworkManager asks for through the secret agent.
use better_nm.Prelude.{ℕ, String, List, Bool, Assoc}

pub record SecretField : Type 0 where
  pub key : String
  pub label : String
  pub secret : Bool

pub record SecretRequest : Type 0 where
  pub id : String
  pub connection_uuid : String
  pub connection_name : String
  pub ssid : String
  pub vpn : Bool
  pub vpn_kind : String
  pub setting_name : String
  pub fields : List SecretField
  pub message : String
  pub request_new : Bool
  pub user_requested : Bool
  pub created_at : ℕ
  pub expires_at : ℕ

pub record SecretAnswer : Type 0 where
  pub secrets : Assoc String
  pub save : Bool

pub data SecretOutcome : Type 0 where
  answered cancelled timeout unset : SecretOutcome

-- `string(o)`
abbrev pub outcome_name : SecretOutcome → String
outcome_name answered = "answered"
outcome_name cancelled = "cancelled"
outcome_name timeout = "timeout"
outcome_name unset = ""

-- ===== src/Core/Monitor.antt =====
-- internal/core/monitor.go: samples and baselines, over any type of float64 values. `unset` is the
-- empty string of a string type.
use better_nm.Prelude.{ℕ, String}

-- One probe round against one anchor; a negative `rtt_ms` is a round that was lost, a negative
-- `dns_ms` one without a DNS answer.
pub record Sample (F : Type 0) : Type 0 where
  pub time : ℕ
  pub network_key : String
  pub anchor : String
  pub anchor_addr : String
  pub rtt_ms : F
  pub loss : F
  pub dns_ms : F
  pub method : String

pub data BaselineState : Type 0 where
  learning ok degraded idle unset : BaselineState

pub record Baseline (F : Type 0) : Type 0 where
  pub network_key : String
  pub anchor : String
  pub state : BaselineState
  pub sample_count : ℕ
  pub baseline_rtt : F
  pub baseline_loss : F
  pub current_rtt : F
  pub current_loss : F
  pub current_dns : F
  pub since : ℕ
  pub updated_at : ℕ

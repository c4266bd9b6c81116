-- ===== src/Ota/Config.antt =====
-- src/ota/config.rs: the settings of the agent.
use rustot.Prelude.{ℕ, ◌+◌, ◌-◌, ◌%◌, ◌^◌, Bool, true, false}

pub record Config : Type 0 where
  pub block_size : ℕ  -- usize
  pub max_request_momentum : ℕ  -- u8
  pub activate_delay : ℕ  -- u8
  pub request_wait_ms : ℕ  -- u32
  pub status_update_frequency : ℕ  -- u32
  pub allow_downgrade : Bool
  pub unsubscribe_on_shutdown : Bool
  pub self_test_timeout_ms : ℕ  -- u32

abbrev pub default : Config
default = record {
  block_size = 256;
  max_request_momentum = 3;
  activate_delay = 5;
  request_wait_ms = 8000;
  status_update_frequency = 24;
  allow_downgrade = false;
  unsubscribe_on_shutdown = true;
  self_test_timeout_ms = 16000;
}

-- Arithmetic on the machine's words wraps around. `usize` has 32 bits on the target of the build,
-- thumbv7m. The argument of a subtraction is brought above the modulus first.
abbrev pub u8 : ℕ → ℕ
u8 n = n % 2 ^ 8

abbrev pub u32 : ℕ → ℕ
u32 n = n % 2 ^ 32

abbrev pub usize : ℕ → ℕ
usize n = n % 2 ^ 32

abbrev pub usize_sub : ℕ → ℕ → ℕ
usize_sub a b = usize (a + 2 ^ 32 - b)

abbrev pub u32_sub : ℕ → ℕ → ℕ
u32_sub a b = u32 (a + 2 ^ 32 - b)

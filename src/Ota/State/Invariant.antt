-- ===== src/Ota/State/Invariant.antt =====
-- src/ota/state.rs: what the handlers leave alone, however they end.
pub mod Ingest
pub mod Job
pub mod Closing
pub mod Transition
use rustot.Prelude.{
  ℕ, ◌+◌, ◌%◌, ◌^◌, ◌≤◌, ◌<◌, ◌≡◌, ◌≢◌, refl, ap, ◌∙◌, sym, subst, Bool, true, false, Option, none,
  some, List, Outcome, ok, err, panic, arith, if◌then◌else◌, ltb, leb,
}
use rustot.Deps.{Deps}
use rustot.Ota.Error.{OtaError}
use rustot.Ota.Config.{Config, u8}
use rustot.Ota.Pal.{ImageState}
use rustot.Ota.State.Context.{
  ImageStateReason, RestartReason, activate, restart, Parts, SmContext, CountDown, Handler,
  JobEventData, Events,
}
use rustot.Ota.State.Image.{set_image_state, platform_in_selftest, ota_close}
use rustot.Ota.State.Handlers.{
  start_optional, cancel_optional, restart_handler, start_handler, resume_job_handler, no_response,
  request_job_handler, init_file_handler, in_self_test_handler, request_data_handler,
}

-- From one context to another: the configuration stays, and the momentum stays within one above its
-- maximum.
pub record Bounded {d : Deps} (c c' : SmContext d) : Type 0 where
  pub config_kept : c'.config ≡ c.config
  pub momentum_kept :
      c.request_momentum ≤ c.config.max_request_momentum + 1
      → c'.request_momentum ≤ c.config.max_request_momentum + 1

pub Bounded-trans : {d : Deps} {a b c : SmContext d} → Bounded a b → Bounded b c → Bounded a c
Bounded-trans {d} {a} {b} {c} h k =
    let e : b.config.max_request_momentum ≡ a.config.max_request_momentum =
      ap (λ (x : Config). x.max_request_momentum) h.config_kept in
    record {
      config_kept = k.config_kept ∙ h.config_kept;
      momentum_kept = λ p. omega (arith, e, k.momentum_kept (omega (arith, e, h.momentum_kept p)));
    }

-- From one context to another: the configuration stays, the momentum stays within one above its
-- maximum, and an active job stays active.
pub record Steady {d : Deps} (c c' : SmContext d) : Type 0 where
  pub config_kept : c'.config ≡ c.config
  pub momentum_kept :
      c.request_momentum ≤ c.config.max_request_momentum + 1
      → c'.request_momentum ≤ c.config.max_request_momentum + 1
  pub active_kept : c.active_interface ≢ none → c'.active_interface ≢ none

pub Steady-trans : {d : Deps} {a b c : SmContext d} → Steady a b → Steady b c → Steady a c
Steady-trans {d} {a} {b} {c} h k =
    let e : b.config.max_request_momentum ≡ a.config.max_request_momentum =
      ap (λ (x : Config). x.max_request_momentum) h.config_kept in
    record {
      config_kept = k.config_kept ∙ h.config_kept;
      momentum_kept = λ p. omega (arith, e, k.momentum_kept (omega (arith, e, h.momentum_kept p)));
      active_kept = λ p. k.active_kept (h.active_kept p);
    }

module _ {d : Deps} (parts : Parts d) where
  -- The momentum is a `u8` below its last value.
  abbrev pub Keeps : {A : Type 0} → Handler d A → Type 0
  Keeps h = (c : SmContext d) → c.config.max_request_momentum < 255 → Steady c (h c).1

  pub restart_handler-Keeps : (reason : RestartReason) → Keeps (restart_handler parts reason)
  unfolding restart_handler
  restart_handler-Keeps (activate n) c l = ground arith
  restart_handler-Keeps (restart n) c l = ground arith

  pub start_handler-Keeps : Keeps (start_handler parts)
  unfolding start_handler platform_in_selftest start_optional
  start_handler-Keeps c l = ground arith

  pub resume_job_handler-Keeps : Keeps (resume_job_handler parts)
  unfolding resume_job_handler
  resume_job_handler-Keeps c l = ground arith

  pub request_data_handler-Keeps : Keeps (request_data_handler parts)
  unfolding request_data_handler set_image_state
  request_data_handler-Keeps c l = ground arith

  pub init_file_handler-Keeps : Keeps (init_file_handler parts)
  unfolding init_file_handler no_response
  init_file_handler-Keeps c l = ground arith

  pub request_job_handler-Keeps : Keeps (request_job_handler parts)
  unfolding request_job_handler no_response
  request_job_handler-Keeps c l = ground arith

  pub in_self_test_handler-Keeps : Keeps (in_self_test_handler parts)
  unfolding in_self_test_handler cancel_optional set_image_state platform_in_selftest
  in_self_test_handler-Keeps c l = ground arith

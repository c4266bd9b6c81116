-- ===== src/Ota/Builder.antt =====
-- src/ota/builder.rs: how an agent is put together.
use rustot.Prelude.{ℕ, true, Option, none, some, panic}
use rustot.Prelude.Stateful.{lift}
use rustot.Deps.{Deps}
use rustot.Ota.Config.{Config, default}
use rustot.Ota.Pal.{OtaPal, ImageState}
use rustot.Ota.ControlInterface.{ControlInterface}
use rustot.Ota.DataInterface.{DataInterface}
use rustot.Ota.State.Context.{States, CountDown, Events, Parts, SmContext, queue_len}
use rustot.Ota.State.Machine.{StateMachine}

-- `NoTimer`: each of its methods is `unreachable!()`.
unfoldable pub no_timer : (d : Deps) → CountDown d
no_timer d = record { begin = λ count. lift panic; wait = lift panic; cancel = lift panic }

pub record OtaAgentBuilder (d : Deps) : Type 0 where
  pub control : ControlInterface d
  pub data_primary : DataInterface d
  pub data_secondary : Option (DataInterface d)
  pub pal : OtaPal d
  pub request_timer : CountDown d
  pub self_test_timer : Option (CountDown d)
  pub config : Config

module _ {d : Deps} where
  unfoldable pub new :
      ControlInterface d → DataInterface d → CountDown d → OtaPal d → OtaAgentBuilder d
  new control_interface data_primary request_timer pal = record {
    control = control_interface;
    data_primary = data_primary;
    data_secondary = none;
    pal = pal;
    request_timer = request_timer;
    self_test_timer = none;
    config = default;
  }

  unfoldable pub data_secondary : DataInterface d → OtaAgentBuilder d → OtaAgentBuilder d
  data_secondary interface b = record b { data_secondary = some interface }

  unfoldable pub block_size : ℕ → OtaAgentBuilder d → OtaAgentBuilder d
  block_size n b = record b { config = record b.config { block_size = n } }

  unfoldable pub max_request_momentum : ℕ → OtaAgentBuilder d → OtaAgentBuilder d
  max_request_momentum n b = record b { config = record b.config { max_request_momentum = n } }

  unfoldable pub activate_delay : ℕ → OtaAgentBuilder d → OtaAgentBuilder d
  activate_delay n b = record b { config = record b.config { activate_delay = n } }

  unfoldable pub request_wait_ms : ℕ → OtaAgentBuilder d → OtaAgentBuilder d
  request_wait_ms n b = record b { config = record b.config { request_wait_ms = n } }

  unfoldable pub status_update_frequency : ℕ → OtaAgentBuilder d → OtaAgentBuilder d
  status_update_frequency n b = record b {
    config = record b.config { status_update_frequency = n };
  }

  unfoldable pub allow_downgrade : OtaAgentBuilder d → OtaAgentBuilder d
  allow_downgrade b = record b { config = record b.config { allow_downgrade = true } }

  unfoldable pub with_self_test_timeout : CountDown d → ℕ → OtaAgentBuilder d → OtaAgentBuilder d
  with_self_test_timeout timer timeout_ms b = record b {
    self_test_timer = some timer;
    config = record b.config { self_test_timeout_ms = timeout_ms };
  }

  unfoldable pub parts : OtaAgentBuilder d → Parts d
  parts b = record {
    control = b.control;
    data_primary = b.data_primary;
    data_secondary = b.data_secondary;
    pal = b.pal;
    request_timer = b.request_timer;
    self_test_timer = b.self_test_timer;
  }

  -- `build` in a world: the interfaces, which stay as they are, and the machine in its first state.
  unfoldable pub build : OtaAgentBuilder d → d.World → Parts d × StateMachine d
  unfolding parts
  build b world =
      let context : SmContext d = record {
        events = d.new_queue queue_len (Events d);
        active_interface = none;
        request_momentum = 0;
        config = b.config;
        image_state = ImageState.unknown;
        world = world;
      } in
      (parts b, record { state = States.ready; context = context })

-- ===== src/Tests/Turns.antt =====
-- A turn of the loop of a device.
use rustot.Prelude.{ℕ, ◌+◌, ◌≤◌, ◌≡◌, refl, sym, ◌∙◌, false, [], ◌∷◌, ok, arith, codes}
use rustot.Prelude.Text.{splitn}
use rustot.Ota.Config.{default}
use rustot.Ota.State.Machine.{run_table, transition}
use rustot.Ota.State.Handlers.{start_handler, request_job_handler}
use rustot.Deps.Reference.{push, pop}
use rustot.Ota.State.Invariant.Transition.{Sound}
use rustot.Ota.Builder
use rustot.Ota.Builder.{new, build}
use rustot.Ota.Agent
use rustot.Examples.Ota.{handle_ota, job_or_stream, stream_of}
use rustot.Jobs.Topics.{read_topic, read_pieces}
use rustot.Ota.DataInterface.Mqtt.Topics.{read_stream_topic}
use rustot.Examples.Ota.Device.{
  Device, Notification, turn, on_notification, on_update, wait_suspended, expect, drop_error,
}
use rustot.Examples.Ota.Loop.{started, turned, Turns-Sound}
use rustot.Tests.Device.{device}
use rustot.Tests.Agents.{machine, documented, builder}
use rustot.Tests.Messages.{reader}

-- The world of the test counts, and a sleep takes ten.
abbrev sleep : ℕ → ℕ
sleep w = w + 10

abbrev begun : Device device
begun = record {
  agent = (Agent.init machine (Builder.parts builder) (build builder 0).1).1;
  cnt = 0;
  suspended = false;
}

abbrev block : Notification
block = Notification.publish (codes "$aws/things/thing/streams/AFR_OTA-7/data/cbor") (5 ∷ [])

abbrev later : Device device
later = (turn machine (Builder.parts builder) reader sleep block begun).1

goes_on : (turn machine (Builder.parts builder) reader sleep block begun).0 ≡ ok tt
unfolding turn on_notification on_update wait_suspended expect drop_error Agent.timer_callback
    Agent.init Agent.process_event Agent.handle_message Agent.dispatch Agent.next_event run_table
    handle_ota job_or_stream stream_of Agent.self_test_expired read_topic read_pieces splitn
    read_stream_topic build new transition start_handler push request_job_handler pop
goes_on = refl

Turns-Sound_example : Sound default later.agent × (later.suspended ≡ false → later.cnt ≤ 1000)
unfolding new
Turns-Sound_example =
    Turns-Sound machine reader sleep builder later documented (omega arith)
      (turned begun block (started 0) (λ e. ground (arith, sym goes_on ∙ e)))

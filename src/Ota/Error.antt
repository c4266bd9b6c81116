-- ===== src/Ota/Error.antt =====
-- src/ota/error.rs: the errors of the agent, and the error of a job message that becomes one.
use rustot.Prelude.{ℕ}

-- `mqttrust::MqttError` is opaque: a number stands for each of its values.
abbrev pub MqttError : Type 0
MqttError = ℕ

pub data JobError : Type 0 where
  overflow encoding : JobError
  mqtt : MqttError → JobError

pub data OtaError : Type 0 where
  no_active_job signal_event_failed momentum momentum_abort invalid_interface reset_failed
        block_out_of_range zero_file_size overflow invalid_file :
      OtaError
  mqtt : MqttError → OtaError
  encoding pal timer : OtaError

unfoldable pub from_job_error : JobError → OtaError
from_job_error JobError.overflow = OtaError.overflow
from_job_error JobError.encoding = OtaError.encoding
from_job_error (JobError.mqtt m) = OtaError.mqtt m

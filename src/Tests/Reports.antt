-- ===== src/Tests/Reports.antt =====
-- Reports of a job over MQTT.
use rustot.Prelude.{ℕ, ◌≡◌, refl, some, List, [], ◌∷◌, ok, panic, arith, codes}
use rustot.Deps.Reference.{reference-MapLaws, insert_in}
use rustot.Jobs.DataTypes.{JobStatus}
use rustot.Ota.Config.{default}
use rustot.Ota.Error.{OtaError}
use rustot.Ota.Encoding.{FileContext, string_from, insert_status}
use rustot.Ota.Encoding.Json.{JobStatusReason, as_str}
use rustot.Ota.ControlInterface.Mqtt.{update_job_status}
use rustot.Ota.ControlInterface.Mqtt.Reports.{
  update_job_status-reports, process_data_handler-panics,
}
use rustot.Ota.State.Context.{Parts, primary, file_ctx, set_file_ctx}
use rustot.Ota.State.Ingest.{ingest_data_block}
use rustot.Ota.State.Handlers.{process_data_handler}
use rustot.Tests.Client.{mqtt, json}
use rustot.Tests.Device.{device, parts, control, context}
use rustot.Tests.Transfer.{first}

-- Five blocks of the file are here.
abbrev five : FileContext device
five = record first { blocks_remaining = 35 }

abbrev marked : List ℕ → FileContext device
marked text = record five {
  status_details = (codes "updated_by", codes "1.2.3") ∷ (codes "self_test", text) ∷ [];
}

-- The report of an abortion.
update_job_status-reports_example :
    update_job_status json mqtt default JobStatus.failed JobStatusReason.aborted (five, 0)
    ≡ (ok tt, (marked (codes "aborted"), 1))
unfolding insert_status string_from insert_in as_str
update_job_status-reports_example =
    update_job_status-reports json mqtt default five (marked (codes "aborted")) 0 JobStatus.failed
      JobStatusReason.aborted (codes "aborted") (1 ∷ 2 ∷ []) (reference-MapLaws ℕ) (λ e. cc)
      (λ e. cc) refl refl (omega arith) (omega arith) refl

abbrev mqtt_parts : Parts device
mqtt_parts = record parts {
  control = record control { update_job_status = update_job_status json mqtt };
}

process_data_handler-panics_example :
    (process_data_handler mqtt_parts [] (context (some (primary first)))).0 ≡ panic
unfolding ingest_data_block file_ctx set_file_ctx
process_data_handler-panics_example =
    process_data_handler-panics json mqtt mqtt_parts [] (context (some (primary first)))
      OtaError.encoding refl refl (λ e. cc) refl

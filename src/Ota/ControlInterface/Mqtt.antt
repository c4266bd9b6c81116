-- ===== src/Ota/ControlInterface/Mqtt.antt =====
-- src/ota/control_interface/mqtt.rs: jobs are requested and their status is reported over MQTT.
pub mod Reports
pub mod NextJob
use rustot.Prelude.{
  ℕ, ◌+◌, ◌%◌, Bool, true, false, not, ◌&&◌, Option, none, some, [], ◌++◌, ◌∷◌, Outcome, ok, err,
  panic, map_err, map_ok, ok_or, if◌then◌else◌, ◌==◌, Str, codes,
}
use rustot.Prelude.Text.{print_u32}
use rustot.Prelude.Stateful.{Exec, ◌>>=◌, ◌>>◌, pure, fail, lift, gets}
use rustot.Deps.{Deps}
use rustot.Jobs.DataTypes.{JobStatus}
use rustot.Mqtt.{Mqtt, QoS, at_most_once, at_least_once, given}
use rustot.Jobs.Topics.{Topic}
use rustot.Jobs.Subscribe
use rustot.Jobs.Unsubscribe
use rustot.Jobs.Describe
use rustot.Jobs.Requests.{Json, max_client_token_len}
use rustot.Jobs.Update.{Update, new, status_details, send}
use rustot.Ota.Config.{Config, u32, u32_sub}
use rustot.Ota.Error.{JobError, OtaError, from_job_error}
use rustot.Ota.Encoding.Json.{JobStatusReason, as_str}
use rustot.Ota.Encoding.{FileContext, total_blocks, insert_status}
use rustot.Ota.DataInterface.{OnFile}
use rustot.Ota.ControlInterface.{ControlInterface}

abbrev pub is_self_test_active : JobStatusReason → Bool
is_self_test_active JobStatusReason.self_test_active = true
is_self_test_active _ = false

-- `received_blocks % status_update_frequency != 0`, behind the two tests before it. Rust panics at a
-- remainder by 0.
unfoldable pub is_skipped : {E : Type 0} → ℕ → ℕ → ℕ → Outcome E Bool
is_skipped blocks_remaining received_blocks frequency =
    if not (blocks_remaining == 0) && not (received_blocks == 0)
    then (if frequency == 0 then panic else ok (not (received_blocks % frequency == 0)))
    else ok false

-- `write_fmt` into a `heapless::String<11>`
progress_text : {E : Type 0} → Deps → E → ℕ → ℕ → Outcome E Str
progress_text d e received_blocks total =
    let text = print_u32 received_blocks ++ b'/' ∷ print_u32 total in
    if d.fits 11 text then ok text else err e

module _ {d : Deps} where
  abbrev stored :
      Outcome OtaError (FileContext d)
      → FileContext d × d.World
      → Outcome OtaError (Unit {0}) × (FileContext d × d.World)
  stored (ok f) s = (ok tt, (f, s.1))
  stored (err e) s = (err e, s)
  stored panic s = (panic, s)

  -- A change of the status details that can fail, in place.
  abbrev pub set_status : Str → Str → OnFile d (Unit {0})
  set_status key value s = stored (insert_status d key value s.0) s

  -- `Jobs::update(job_name, status).status_details(&details).send(self, qos)?`
  abbrev sent : Json d → Mqtt d → QoS → Outcome OtaError (Update d) → OnFile d (Unit {0})
  sent json mqtt qos (ok u) (f, w) =
      let r = send json mqtt qos u w in (map_err (λ e. from_job_error e) r.0, (f, r.1))
  sent json mqtt qos (err e) s = (err e, s)
  sent json mqtt qos panic s = (panic, s)

  unfoldable pub report : Json d → Mqtt d → QoS → JobStatus → OnFile d (Unit {0})
  unfolding new status_details
  report json mqtt qos status (f, w) =
      sent json mqtt qos (map_ok (status_details f.status_details) (new f.job_name status)) (f, w)

  set_progress : ℕ → ℕ → OnFile d (Unit {0})
  unfolding progress_text
  set_progress received_blocks total = do
    progress ← lift (progress_text d OtaError.overflow received_blocks total)
    set_status (codes "progress") progress

  -- The branch for a job that is in progress or has succeeded.
  unfoldable pub report_progress :
      Json d → Mqtt d → Config → Bool → JobStatus → JobStatusReason → OnFile d (Unit {0})
  unfolding set_progress
  report_progress json mqtt config succeeded status reason = do
    f ← gets (λ s. s.0)
    all ← lift (total_blocks f.filesize config.block_size)
    let received = u32_sub (u32 all) (u32 f.blocks_remaining)
    skip ← lift (is_skipped f.blocks_remaining received config.status_update_frequency)
    if skip
        then pure tt
        else (if succeeded then report json mqtt at_least_once status else (do
          if is_self_test_active reason then pure tt else set_progress received (u32 all)
          report json mqtt at_most_once status))

  -- `ControlInterface::update_job_status`
  unfoldable pub update_job_status :
      Json d → Mqtt d → Config → JobStatus → JobStatusReason → OnFile d (Unit {0})
  unfolding report_progress
  update_job_status json mqtt config status reason = do
    text ← lift (as_str reason)
    set_status (codes "self_test") text
    elim status [
      | JobStatus.in_progress ↦ report_progress json mqtt config false JobStatus.in_progress reason
      | JobStatus.succeeded ↦ report_progress json mqtt config true JobStatus.succeeded reason
      | other ↦ report json mqtt at_least_once other
    ]

-- `REQUEST_CNT` is a static: it stands in the world, where it is read and written.
pub record RequestCnt (d : Deps) : Type 0 where
  pub get : d.World → ℕ
  pub set : ℕ → d.World → d.World

-- `?` on a call of the job requests.
abbrev pub on_job : {W A : Type 0} → Exec W JobError A → Exec W OtaError A
on_job m w = let r = m w in (map_err (λ e. from_job_error e) r.0, r.1)

-- `write_fmt` into a `heapless::String<MAX_CLIENT_TOKEN_LEN>`
unfoldable pub request_token : Deps → ℕ → Str → Outcome OtaError Str
request_token d cnt client_id =
    let text = print_u32 cnt ++ b':' ∷ client_id in
    if d.fits max_client_token_len text then ok text else err OtaError.overflow

module _ {d : Deps} where
  -- `REQUEST_CNT.fetch_add(1)`, which wraps around.
  abbrev fetch_add : RequestCnt d → Exec d.World OtaError ℕ
  fetch_add cnt w = (ok (cnt.get w), cnt.set (u32 (cnt.get w + 1)) w)

  unfoldable pub subscribe_next : Mqtt d → Exec d.World JobError (Unit {0})
  unfolding Subscribe.topic Subscribe.send
  subscribe_next mqtt =
      given (Subscribe.topic 1 Topic.notify_next at_least_once []) (Subscribe.send mqtt)

  -- `ControlInterface::request_job`
  unfoldable pub request_job : Json d → Mqtt d → RequestCnt d → Exec d.World OtaError (Unit {0})
  unfolding subscribe_next request_token Describe.new Describe.client_token Describe.send
  request_job json mqtt cnt = do
    on_job (subscribe_next mqtt)
    n ← fetch_add cnt
    token ← lift (request_token d n mqtt.client_id)
    request ← lift (Describe.client_token token Describe.new)
    on_job (Describe.send json mqtt at_least_once request)

  -- `ControlInterface::cleanup`
  unfoldable pub cleanup : Mqtt d → Exec d.World OtaError (Unit {0})
  unfolding Unsubscribe.topic Unsubscribe.send
  cleanup mqtt = on_job (given (Unsubscribe.topic 1 Topic.notify_next []) (Unsubscribe.send mqtt))

  abbrev pub control_interface : Json d → Mqtt d → RequestCnt d → ControlInterface d
  control_interface json mqtt cnt = record {
    request_job = request_job json mqtt cnt;
    update_job_status = update_job_status json mqtt;
    cleanup = cleanup mqtt;
  }

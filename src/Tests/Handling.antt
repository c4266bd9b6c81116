-- ===== src/Tests/Handling.antt =====
-- Calls of handlers.
use rustot.Prelude.{
  ℕ, ◌≡◌, ◌≢◌, refl, ◌↔◌, ◌⊎◌, true, false, none, some, List, [], ◌∷◌, Outcome, ok, err, ◌==◌,
}
use rustot.Deps.Reference.{reference-QueueLaws, push, lookup_in}
use rustot.Jobs.DataTypes.{JobStatus}
use rustot.Ota.Config.{default}
use rustot.Ota.Error.{OtaError}
use rustot.Prelude.Text.{split, parse_u8}
use rustot.Ota.Version.{new, from_str, version_lt}
use rustot.Ota.Pal.{ImageState, PalImageState, OtaEvent}
use rustot.Ota.Encoding.{FileContext, updated_by}
use rustot.Ota.Encoding.Json.{JobStatusReason}
use rustot.Ota.State.Context.{
  ImageStateReason, SmContext, Interface, primary, file_ctx, set_file_ctx, RestartReason, Events,
}
use rustot.Ota.State.Image.{set_image_state_with_reason, job_status, job_status_reason}
use rustot.Ota.State.Ingest.{ingest_data_block}
use rustot.Ota.State.Job.{version_check, handle_self_test_job}
use rustot.Ota.State.Handlers.{in_self_test_handler, process_data_handler}
use rustot.Ota.State.Verdict.{set_image_state_with_reason-accepts}
use rustot.Ota.State.SelfTest.{
  PassesCheck, in_self_test_handler-accepts, handle_self_test_job-checks,
}
use rustot.Ota.State.Completion.{process_data_handler-completes}
use rustot.Tests.Device.{device, parts, control, pal, context}
use rustot.Tests.Transfer.{first}

abbrev busy : SmContext device
busy = context (some (primary first))

-- The platform takes the state.
set_image_state_with_reason-accepts_example :
    (((ImageState.accepted ≡ ImageState.accepted)
        × (((pal.set_platform_image_state ImageState.accepted 0).0 ≡ ok tt)
            ⊎ (ImageState.accepted ≡ ImageState.aborted)))
      ⊎ ((ImageState.accepted ≡ ImageState.rejected)
          × (ImageState.accepted ≢ ImageState.aborted)
          × ((pal.set_platform_image_state ImageState.accepted 0).0 ≢ ok tt)))
    × (ImageState.accepted ≡ ImageState.accepted
        → (ImageState.accepted ≡ ImageState.accepted)
          × ((pal.set_platform_image_state ImageState.accepted 0).0 ≡ ok tt))
    × (((control.update_job_status default JobStatus.succeeded JobStatusReason.accepted
            (first, 1)).0
          ≡ ok tt)
        × ((set_image_state_with_reason control pal default ImageState.accepted none (first, 0)).1
            ≡ (first, 1)))
    × ((job_status ImageState.accepted ≡ JobStatus.succeeded)
        ↔ (ImageState.accepted ≡ ImageState.accepted))
    × ((job_status_reason ImageState.accepted ≡ JobStatusReason.accepted)
        ↔ (ImageState.accepted ≡ ImageState.accepted))
    × ((job_status_reason ImageState.accepted ≡ JobStatusReason.self_test_active)
        ↔ (ImageState.accepted ≡ ImageState.testing))
    × ((job_status_reason ImageState.accepted ≡ JobStatusReason.rejected)
        ↔ (ImageState.accepted ≡ ImageState.rejected))
    × ((job_status_reason ImageState.accepted ≡ JobStatusReason.aborted) ↔ (
        (ImageState.accepted ≢ ImageState.accepted)
        × (ImageState.accepted ≢ ImageState.testing)
        × (ImageState.accepted ≢ ImageState.rejected)))
    × ((job_status ImageState.accepted ≡ JobStatus.in_progress)
        ↔ (ImageState.accepted ≡ ImageState.testing))
    × ((job_status ImageState.accepted ≡ JobStatus.failed) ↔ (
        (ImageState.accepted ≢ ImageState.accepted) × (ImageState.accepted ≢ ImageState.testing)))
unfolding set_image_state_with_reason job_status job_status_reason
set_image_state_with_reason-accepts_example =
    set_image_state_with_reason-accepts control pal default ImageState.accepted ImageState.accepted
      none first 0 refl

-- The platform of the device is not in a self test.
in_self_test_handler-accepts_example :
    ((in_self_test_handler parts busy).1.image_state ≡ ImageState.accepted
      → (pal.get_platform_image_state 0).0 ≡ ok PalImageState.pending_commit)
    × ((pal.get_platform_image_state 0).0 ≡ ok PalImageState.pending_commit
        → ((in_self_test_handler parts busy).1.image_state ≡ ImageState.accepted)
          ⊎ ((in_self_test_handler parts busy).1.image_state ≡ ImageState.unknown))
    × ((pal.get_platform_image_state 0).0 ≢ ok PalImageState.pending_commit
        → ((in_self_test_handler parts busy).1.image_state ≡ ImageState.rejected)
          ⊎ ((in_self_test_handler parts busy).1.image_state ≡ ImageState.unknown))
    × ((in_self_test_handler parts busy).0 ≡ ok tt
        → (pal.get_platform_image_state 0).0 ≡ ok PalImageState.pending_commit
        → (in_self_test_handler parts busy).1.image_state ≡ ImageState.accepted)
    × ((in_self_test_handler parts busy).0 ≡ ok tt
        → (pal.get_platform_image_state 0).0 ≢ ok PalImageState.pending_commit
        → ((in_self_test_handler parts busy).1.image_state ≡ ImageState.rejected)
          × (some (Events.restart (RestartReason.restart 0) ∷ [])
              ≡ some (in_self_test_handler parts busy).1.events))
unfolding push
in_self_test_handler-accepts_example = in_self_test_handler-accepts parts busy (λ e. cc)

-- The device runs 1.2.3, which is also the version that the update comes from.
abbrev tested : Outcome OtaError (FileContext device) × SmContext device
tested = handle_self_test_job parts first (context none)

abbrev set_to : ImageState → Outcome OtaError ImageState × (FileContext device × ℕ)
set_to s =
    set_image_state_with_reason control pal default s (some ImageStateReason.version_check)
      (first, 1)

handle_self_test_job-checks_example :
    ((false ≡ true) ⊎ PassesCheck {d = device} first (new 1 2 3)
      → (tested.1.events ≡ [])
        × ((set_to ImageState.testing).0 ≡ ok tested.1.image_state)
        × ((set_to ImageState.testing).1 ≡ (first, tested.1.world))
        × ((pal.set_platform_image_state ImageState.testing 1).0 ≡ ok tt
            → tested.1.image_state ≡ ImageState.testing)
        × ((pal.set_platform_image_state ImageState.testing 1).0 ≢ ok tt
            → tested.1.image_state ≡ ImageState.rejected))
    × (false ≡ false
        → ¬ PassesCheck {d = device} first (new 1 2 3)
        → (some (Events.restart (RestartReason.restart 0) ∷ []) ≡ some tested.1.events)
          × (tested.1.image_state ≡ ImageState.rejected)
          × ((set_to ImageState.rejected).1.0 ≡ first)
          × (pal.complete_callback OtaEvent.self_test_failed (set_to ImageState.rejected).1.1
              ≡ (ok tt, tested.1.world)))
unfolding handle_self_test_job version_check updated_by lookup_in from_str split parse_u8 version_lt
    push
handle_self_test_job-checks_example =
    handle_self_test_job-checks parts (context none) first first (new 1 2 3) refl refl

-- The last block of a file.
abbrev ending : FileContext device
ending = record first { block_offset = 31; blocks_remaining = 1; bitmap = λ i. i == 8 }

abbrev last_payload : List ℕ
last_payload = 39 ∷ 16 ∷ []

abbrev ended : SmContext device
ended = (ingest_data_block parts last_payload (context (some (primary ending)))).1

abbrev left : Interface device
left =
    primary (record ending { blocks_remaining = 0; bitmap = device.set_bit ending.bitmap 8 false })

process_data_handler-completes_example :
    (ended.events ≡ []
      → ((process_data_handler parts last_payload (context (some (primary ending)))).0 ≡ ok tt)
        × ((process_data_handler parts last_payload (context (some (primary ending)))).1.events
            ≡ Events.close_file ∷ Events.restart (RestartReason.activate 0) ∷ []))
    × ((e : Events device)
        → ended.events ≡ e ∷ []
        → ((process_data_handler parts last_payload (context (some (primary ending)))).0
            ≡ err OtaError.signal_event_failed)
          × ((process_data_handler parts last_payload (context (some (primary ending)))).1.events
              ≡ e ∷ Events.close_file ∷ []))
unfolding ingest_data_block file_ctx set_file_ctx
process_data_handler-completes_example =
    process_data_handler-completes parts (reference-QueueLaws ℕ) (context (some (primary ending)))
      left last_payload refl refl refl (λ s. refl)

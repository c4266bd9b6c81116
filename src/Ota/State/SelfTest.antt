-- ===== src/Ota/State/SelfTest.antt =====
-- src/ota/state.rs: the self test of a new image.
use rustot.Prelude.{
  ◌≡◌, ◌≢◌, ◌↔◌, ◌⊎◌, inl, inr, true, false, ◌||◌, Option, none, some, ok, arith, Bool-cases,
  Option-cases, ℕ, zero, suc, refl, ◌==◌, Str, codes,
}
use rustot.Deps.{Deps}
use rustot.Ota.Version.{Version, from_str}
use rustot.Ota.Version.Laws.{Older, version_lt-Older}
use rustot.Ota.Pal.{PalImageState, ImageState, OtaEvent}
use rustot.Ota.Encoding.{FileContext, updated_by}
use rustot.Ota.State.Context.{ImageStateReason, Parts, SmContext, RestartReason, Events, queue_len}
use rustot.Ota.State.Image.{
  forced, set_platform, set_image_state_with_reason, set_image_state, platform_in_selftest,
}
use rustot.Ota.State.Job.{
  version_check, handle_self_test_job, active_version, set_local_image_state,
}
use rustot.Ota.State.Handlers.{cancel_optional, in_self_test_handler}

-- A file is not for the device's own firmware, or it names no version that updated it, or one that cannot
-- be read, or one that is older than `v`.
abbrev pub PassesCheck : {d : Deps} → FileContext d → Version → Type 0
PassesCheck {d} f v =
    (f.fileid ≢ 0)
    ⊎ (f.file_type ≢ some 0)
    ⊎ ((text : Str) (u : Version)
        → d.lookup f.status_details (codes "updated_by") ≡ some text
        → from_str text ≡ some u
        → Older u v)

module _ {d : Deps} (parts : Parts d) (c : SmContext d) where
  -- An image that was not accepted before the call is accepted after it only where the platform said
  -- that the image is in its self test. Where the platform said so, the image is accepted or what it
  -- was, and accepted if the call succeeds. Where the platform said anything else or failed to answer,
  -- the image is rejected or what it was, whether the call succeeds or not, and if it succeeds, the
  -- image is rejected and a restart is queued.
  pub in_self_test_handler-accepts :
      c.image_state ≢ ImageState.accepted
      → let pal_state = parts.pal.get_platform_image_state c.world in
        let r = in_self_test_handler parts c in
        (r.1.image_state ≡ ImageState.accepted → pal_state.0 ≡ ok PalImageState.pending_commit)
        × (pal_state.0 ≡ ok PalImageState.pending_commit
            → (r.1.image_state ≡ ImageState.accepted) ⊎ (r.1.image_state ≡ c.image_state))
        × (pal_state.0 ≢ ok PalImageState.pending_commit
            → (r.1.image_state ≡ ImageState.rejected) ⊎ (r.1.image_state ≡ c.image_state))
        × (r.0 ≡ ok tt
            → pal_state.0 ≡ ok PalImageState.pending_commit
            → r.1.image_state ≡ ImageState.accepted)
        × (r.0 ≡ ok tt
            → pal_state.0 ≢ ok PalImageState.pending_commit
            → (r.1.image_state ≡ ImageState.rejected)
              × (d.enqueue queue_len (Events d) (Events.restart (RestartReason.restart 0)) c.events
                  ≡ some r.1.events))
  unfolding in_self_test_handler set_image_state platform_in_selftest cancel_optional
      set_image_state_with_reason set_platform forced
  in_self_test_handler-accepts n = (
    λ e. ground arith,
    λ k. ground arith,
    λ k. ground arith,
    λ e k. ground arith,
    λ e k. (ground arith, ground arith),
  )

firmware-cases : (t : Option ℕ) → (t ≡ some 0) ⊎ (t ≢ some 0)
firmware-cases none = inr (λ e. cc)
firmware-cases (some zero) = inl refl
firmware-cases (some (suc n)) = inr (λ e. ground arith)

version_check-PassesCheck :
    {d : Deps} (f : FileContext d) (v : Version) → (version_check f v ≡ true) ↔ PassesCheck f v
unfolding version_check updated_by
version_check-PassesCheck {d} f v = (
  λ e. elim (Bool-cases (f.fileid == 0)) [
    | inr n ↦ inl (ground arith)
    | inl z ↦ elim (firmware-cases f.file_type) [
      | inr n ↦ inr (inl n)
      | inl t ↦ inr (inr (λ text u l r. (version_lt-Older u v).0 (ground (arith, z, t, l, r))))
    ]
  ],
  λ n. elim n [
    | inl z ↦ ground (arith, z)
    | inr (inl t) ↦ ground (arith, t)
    | inr (inr o) ↦ elim (Option-cases (d.lookup f.status_details (codes "updated_by"))) [
      | inl l ↦ ground (arith, l)
      | inr (text, l) ↦ elim (Option-cases (from_str text)) [
        | inl r ↦ ground (arith, l, r)
        | inr (u, r) ↦ ground (arith, l, r, (version_lt-Older u v).1 (o text u l r))
      ]
    ]
  ],
)

module _ {d : Deps} (parts : Parts d) (c : SmContext d) where
  -- A job in self test, where the active version is known and the call succeeds, is taken over where
  -- downgrades are allowed, where the file is not for the device's own firmware (file 0 of type 0), and
  -- where it names no version that updated it, an unreadable one or one older than the active version.
  -- Then nothing is queued, and what is set and reported is what `set_image_state_with_reason` does at
  -- testing: the image is testing where the platform takes that state and rejected where it does not.
  -- Otherwise the same is done at rejected, the image is rejected, the platform's
  -- `complete_callback(SelfTestFailed)` is called after it and succeeds, and a restart is queued.
  pub handle_self_test_job-checks :
      (f f' : FileContext d) (v : Version)
      → let active = parts.pal.get_active_firmware_version c.world in
        let set = λ (s : ImageState).
          set_image_state_with_reason parts.control parts.pal c.config s
            (some ImageStateReason.version_check)
            (f, active.1) in
        let r = handle_self_test_job parts f c in
        active.0 ≡ ok v
        → r.0 ≡ ok f'
        → ((c.config.allow_downgrade ≡ true) ⊎ PassesCheck f v
            → (r.1.events ≡ c.events)
              × ((set ImageState.testing).0 ≡ ok r.1.image_state)
              × ((set ImageState.testing).1 ≡ (f', r.1.world))
              × ((parts.pal.set_platform_image_state ImageState.testing active.1).0 ≡ ok tt
                  → r.1.image_state ≡ ImageState.testing)
              × ((parts.pal.set_platform_image_state ImageState.testing active.1).0 ≢ ok tt
                  → r.1.image_state ≡ ImageState.rejected))
          × (c.config.allow_downgrade ≡ false
              → ¬ PassesCheck f v
              → (d.enqueue queue_len (Events d) (Events.restart (RestartReason.restart 0)) c.events
                  ≡ some r.1.events)
                × (r.1.image_state ≡ ImageState.rejected)
                × ((set ImageState.rejected).1.0 ≡ f')
                × (parts.pal.complete_callback OtaEvent.self_test_failed
                      (set ImageState.rejected).1.1
                    ≡ (ok tt, r.1.world)))
  unfolding handle_self_test_job active_version set_local_image_state set_image_state_with_reason
      set_platform forced
  handle_self_test_job-checks f f' v k e =
      let (checked, passes) = version_check-PassesCheck f v in
      (
        λ a.
            let p : (c.config.allow_downgrade || version_check f v) ≡ true = elim a [
              | inl y ↦ ground (arith, y)
              | inr n ↦ ground (arith, passes n)
            ] in
            (ground arith, ground arith, ground arith, λ t. ground arith, λ t. ground arith),
        λ b n.
            let p : version_check f v ≡ false = elim (Bool-cases (version_check f v)) [
              | inl y ↦ absurd (n (checked y))
              | inr y ↦ y
            ] in
            (ground arith, ground arith, ground arith, ground arith),
      )

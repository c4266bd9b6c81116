-- ===== src/Ota/State/Invariant/Job.antt =====
-- src/ota/state.rs: what the handling of a job document leaves alone.
use rustot.Prelude.{
  ◌≡◌, ◌≢◌, ◌⊎◌, inl, inr, Bool-cases, ◌==◌, Outcome-cases, Option, none, some, Outcome, ok, err,
  panic, arith,
}
use rustot.Prelude.Stateful.{continue, ◌>>=◌, ◌>>◌, gets}
use rustot.Deps.{Deps}
use rustot.Ota.Error.{OtaError}
use rustot.Ota.State.Context.{Parts, SmContext, Handler, JobEventData}
use rustot.Ota.State.Image.{platform_in_selftest, ota_close}
use rustot.Ota.Encoding.{FileContext, self_test}
use rustot.Ota.State.Context.{Interface, get_file}
use rustot.Ota.State.Job.{
  first_filesize, set_local_image_state, active_version, handle_self_test_job, new_file_context,
  match_active, after_create, create_file, begin_job, get_file_context_from_job, select_interface,
  set_active, start_job, process_job_handler,
}
use rustot.Ota.State.Invariant.{Bounded, Bounded-trans}

module _ {d : Deps} (parts : Parts d) where
  abbrev Binds : {A : Type 0} → Handler d A → Type 0
  Binds h = (c : SmContext d) → Bounded c (h c).1

  handle_self_test_job-Binds : (f : FileContext d) → Binds (handle_self_test_job parts f)
  unfolding handle_self_test_job active_version set_local_image_state
  handle_self_test_job-Binds f c = ground arith

  create_file-Binds : (f : FileContext d) → Binds (create_file parts f)
  unfolding create_file after_create set_local_image_state ota_close
  create_file-Binds f c = ground arith

  new_file_context-Binds : (job : JobEventData d) → Binds (new_file_context parts job)
  unfolding new_file_context
  new_file_context-Binds job c = ground arith

  match_active-Binds :
      (job : JobEventData d) (a : Option (Interface d)) → Binds (match_active parts job a)
  unfolding match_active new_file_context
  match_active-Binds job none c = ground arith
  match_active-Binds job (some i) c = ground arith

  bind-Binds :
      {A B : Type 0} (r : Outcome OtaError A × SmContext d) (f : A → Handler d B) (c : SmContext d)
      → Bounded c r.1
      → ((a : A) → Binds (f a))
      → Bounded c (continue r.0 f r.1).1
  bind-Binds (ok a, c') f c h k = Bounded-trans h (k a c')
  bind-Binds (err e, c') f c h k = h
  bind-Binds (panic, c') f c h k = h

  begin_job-Binds : (f : FileContext d ⊎ FileContext d) → Binds (begin_job parts f)
  unfolding begin_job
  begin_job-Binds (inl f) c = elim (Bool-cases (self_test d f)) [
    | inl e ↦ rw e (handle_self_test_job-Binds f c)
    | inr e ↦ rw e (create_file-Binds f c)
  ]
  begin_job-Binds (inr f) c = ground arith

  get_file_context_from_job-Binds :
      (job : JobEventData d) → Binds (get_file_context_from_job parts job)
  unfolding get_file_context_from_job
  get_file_context_from_job-Binds job c =
      elim (Bool-cases (first_filesize job.ota_document.files == 0)) [
        | inl e ↦ rw e (ground arith)
        | inr e ↦ rw e (
            bind-Binds (match_active parts job c.active_interface c) (begin_job parts) c
              (match_active-Binds job c.active_interface c) begin_job-Binds)
      ]

  -- After the file context is made.
  activate_job : JobEventData d → FileContext d → Handler d (Unit {0})
  unfolding set_active start_job
  activate_job job file = do
    set_active parts file (select_interface parts file job.ota_document.protocols)
    file' ← get_file
    image_state ← gets (λ c. c.image_state)
    start_job parts file' image_state

  activate_job-Binds : (job : JobEventData d) (f : FileContext d) → Binds (activate_job job f)
  unfolding activate_job set_active start_job platform_in_selftest set_local_image_state
  activate_job-Binds job f c = ground arith

  -- A job that is accepted is active.
  activate_job-active :
      (job : JobEventData d) (f : FileContext d) (c : SmContext d)
      → (activate_job job f c).0 ≡ ok tt
      → (activate_job job f c).1.active_interface ≢ none
  unfolding activate_job set_active start_job platform_in_selftest
  activate_job-active job f c e = ground arith

  pub process_job_handler-Binds : (job : JobEventData d) → Binds (process_job_handler parts job)
  unfolding process_job_handler activate_job
  process_job_handler-Binds job c =
      bind-Binds (get_file_context_from_job parts job c) (activate_job job) c
        (get_file_context_from_job-Binds job c) (activate_job-Binds job)

  pub process_job_handler-active :
      (job : JobEventData d) (c : SmContext d)
      → (process_job_handler parts job c).0 ≡ ok tt
      → (process_job_handler parts job c).1.active_interface ≢ none
  unfolding process_job_handler activate_job
  process_job_handler-active job c e =
      elim (Outcome-cases (get_file_context_from_job parts job c).0) [
        | inl (f, k) ↦
            let on = activate_job-active job f (get_file_context_from_job parts job c).1 in
            rw k (on (simp k at e))
        | inr (inl (x, k)) ↦ absurd (cc)
        | inr (inr k) ↦ absurd (cc)
      ]

-- ===== src/Ota/State/Context.antt =====
-- src/ota/state.rs: the events and states, the context that the handlers share, and how a handler calls
-- on the interfaces.
use rustot.Prelude.{ℕ, ◌+◌, Option, none, some, List, Outcome, ok, err, panic, map_err, map_ok, Str}
use rustot.Prelude.Stateful.{Exec}
use rustot.Deps.{Deps}
use rustot.Ota.Config.{Config, u8}
use rustot.Ota.Error.{OtaError}
use rustot.Ota.Pal.{OtaPal, OtaPalError, ImageState, from_pal_error}
use rustot.Ota.Encoding.{FileContext}
use rustot.Ota.Encoding.Json.{OtaJob}
use rustot.Ota.ControlInterface.{ControlInterface}
use rustot.Ota.DataInterface.{DataInterface, OnFile}

pub data ImageStateReason : Type 0 where
  image_state_mismatch signature_check_passed invalid_data_protocol user_abort version_check :
      ImageStateReason
  pal : OtaPalError → ImageStateReason

pub data RestartReason : Type 0 where
  activate restart : ℕ → RestartReason

-- `RestartReason::inc`, on `u8`.
unfoldable pub inc : RestartReason → RestartReason
inc (RestartReason.activate cnt) = RestartReason.activate (u8 (cnt + 1))
inc (RestartReason.restart cnt) = RestartReason.restart (u8 (cnt + 1))

pub record JobEventData (d : Deps) : Type 0 where
  pub job_name : Str
  pub ota_document : OtaJob
  pub status_details : Option d.Map

-- The events and states that the `statemachine!` block names.
pub data Events (d : Deps) : Type 0 where
  start request_job_document request_timer start_self_test create_file request_file_block close_file
        suspend resume user_abort shutdown :
      Events d
  received_job_document : JobEventData d → Events d
  received_file_block : List ℕ → Events d
  restart : RestartReason → Events d

pub data States : Type 0 where
  ready requesting_job waiting_for_job creating_file requesting_file_block waiting_for_file_block
        restarting suspended :
      States

pub data Interface (d : Deps) : Type 0 where
  primary secondary : FileContext d → Interface d

-- `Interface::file_ctx`, and a write through `Interface::mut_file_ctx`.
unfoldable pub file_ctx : {d : Deps} → Interface d → FileContext d
file_ctx (Interface.primary i) = i
file_ctx (Interface.secondary i) = i

unfoldable pub set_file_ctx : {d : Deps} → FileContext d → Interface d → Interface d
set_file_ctx f (Interface.primary i) = Interface.primary f
set_file_ctx f (Interface.secondary i) = Interface.secondary f

-- `embedded_hal::timer::nb::{CountDown, Cancel}`: a trait of another crate.
pub record CountDown (d : Deps) : Type 0 where
  pub begin : ℕ → Exec d.World (Unit {0}) (Unit {0})
  pub wait : Exec d.World (Unit {0}) (Unit {0})
  pub cancel : Exec d.World (Unit {0}) (Unit {0})

-- The fields of `SmContext` that hold implementations of traits. They are never assigned: what their
-- methods change is in the world.
pub record Parts (d : Deps) : Type 0 where
  pub control : ControlInterface d
  pub data_primary : DataInterface d
  pub data_secondary : Option (DataInterface d)
  pub pal : OtaPal d
  pub request_timer : CountDown d
  pub self_test_timer : Option (CountDown d)

-- `L` of the queue of events is 3 in `OtaAgent`.
abbrev pub queue_len : ℕ
queue_len = 3

abbrev pub EventQueue : Deps → Type 0
EventQueue d = d.Queue queue_len (Events d)

-- The other fields of `SmContext`, and the world.
pub record SmContext (d : Deps) : Type 0 where
  pub events : EventQueue d
  pub active_interface : Option (Interface d)
  pub request_momentum : ℕ  -- u8
  pub config : Config
  pub image_state : ImageState
  pub world : d.World

-- A handler.
abbrev pub Handler : Deps → Type 0 → Type 0
Handler d A = Exec (SmContext d) OtaError A

module _ {d : Deps} where
  -- A call of a trait that has its own error.
  abbrev pub on_world : {E A : Type 0} → (E → OtaError) → Exec d.World E A → Handler d A
  on_world f m c = (map_err f (m c.world).0, record c { world = (m c.world).1 })

  abbrev pub on_pal : {A : Type 0} → Exec d.World OtaPalError A → Handler d A
  on_pal m = on_world (λ e. from_pal_error e) m

  abbrev pub on_timer : Exec d.World (Unit {0}) (Unit {0}) → Handler d (Unit {0})
  on_timer m = on_world (λ e. OtaError.timer) m

  abbrev pub run_on : {A : Type 0} → OnFile d A → Option (Interface d) → Handler d A
  run_on m none c = (err OtaError.invalid_interface, c)
  run_on m (some i) c =
      let r = m (file_ctx i, c.world) in
      (r.0, record c { active_interface = some (set_file_ctx r.1.0 i); world = r.1.1 })

  -- `active_interface.as_mut().ok_or(InvalidInterface)?.mut_file_ctx()`, and a call that gets it.
  abbrev pub on_file : {A : Type 0} → OnFile d A → Handler d A
  on_file m c = run_on m c.active_interface c

  abbrev file_of : Option (Interface d) → Outcome OtaError (FileContext d)
  file_of none = err OtaError.invalid_interface
  file_of (some i) = ok (file_ctx i)

  abbrev pub get_file : Handler d (FileContext d)
  get_file c = (file_of c.active_interface, c)

  abbrev map_file : (FileContext d → FileContext d) → Option (Interface d) → Option (Interface d)
  map_file f none = none
  map_file f (some i) = some (set_file_ctx (f (file_ctx i)) i)

  -- A write to the file context behind the reference that `get_file` stands for.
  abbrev pub modify_file : (FileContext d → FileContext d) → Handler d (Unit {0})
  modify_file f c = (ok tt, record c { active_interface = map_file f c.active_interface })

  abbrev with_queue :
      SmContext d → Option (EventQueue d) → Outcome OtaError (Unit {0}) × SmContext d
  with_queue c none = (err OtaError.signal_event_failed, c)
  with_queue c (some q) = (ok tt, record c { events = q })

  -- `self.events.enqueue(event).map_err(|_| OtaError::SignalEventFailed)`
  abbrev pub signal : Events d → Handler d (Unit {0})
  signal e c = with_queue c (d.enqueue queue_len (Events d) e c.events)

  -- The macro `data_interface!`.
  abbrev pub choose :
      {A : Type 0} → Parts d → (DataInterface d → OnFile d A) → Option (Interface d) → Handler d A
  choose parts f none c = (err OtaError.invalid_interface, c)
  choose parts f (some (Interface.primary ctx)) c =
      run_on (f parts.data_primary) (some (Interface.primary ctx)) c
  choose parts f (some (Interface.secondary ctx)) c = elim parts.data_secondary [
    | none ↦ (err OtaError.invalid_interface, c)
    | some ds ↦ run_on (f ds) (some (Interface.secondary ctx)) c
  ]

  abbrev pub data_interface : {A : Type 0} → Parts d → (DataInterface d → OnFile d A) → Handler d A
  data_interface parts f c = choose parts f c.active_interface c

  -- A call on a file context that is a local variable.
  abbrev pub on_local : {A : Type 0} → OnFile d A → FileContext d → Handler d (A × FileContext d)
  on_local m f c =
      let r = m (f, c.world) in (map_ok (λ a. (a, r.1.0)) r.0, record c { world = r.1.1 })

  -- `match` on a result.
  abbrev branch :
      {A B : Type 0}
      → Outcome OtaError A
      → (A → Handler d B)
      → (OtaError → Handler d B)
      → Handler d B
  branch (ok a) f g c = f a c
  branch (err e) f g c = g e c
  branch panic f g c = (panic, c)

  abbrev pub match_result :
      {A B : Type 0} → Handler d A → (A → Handler d B) → (OtaError → Handler d B) → Handler d B
  match_result m f g c = branch (m c).0 f g (m c).1

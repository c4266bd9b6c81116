-- ===== src/Examples/Ota/Device.antt =====
-- examples/ota.rs: the loop of the device, which suspends and resumes its agent for a show.
use rustot.Prelude.{
  ℕ, ◌+◌, ◌^◌, ◌%◌, Bool, true, not, ◌&&◌, ◌||◌, List, Outcome, ok, err, panic, ltb, leb,
  if◌then◌else◌, Str,
}
use rustot.Prelude.Stateful.{Exec, ◌>>=◌, ◌>>◌, pure, lift, gets}
use rustot.Deps.{Deps}
use rustot.Ota.State.Context.{Parts}
use rustot.Ota.State.Machine.{StateMachine, Smlang}
use rustot.Ota.Agent
use rustot.Ota.Agent.{Method}
use rustot.Examples.Ota.{OtaUpdate, Reader, Fallible, handle_ota}

-- What `yield_event` returns: a message, or anything else, an error included.
pub data Notification : Type 0 where
  publish : Str → List ℕ → Notification
  other : Notification

-- The variables of the loop.
pub record Device (d : Deps) : Type 0 where
  pub agent : StateMachine d
  pub cnt : ℕ  -- i32
  pub suspended : Bool

-- A step of the loop. There is no error: an error of the agent is dropped, or is a panic.
abbrev pub Step : Deps → Type 0
Step d = Exec (Device d) (Unit {0}) (Unit {0})

-- `.expect()` and `.ok()`
unfoldable pub expect : {E A : Type 0} → Outcome E A → Outcome (Unit {0}) (Unit {0})
expect (ok a) = ok tt
expect _ = panic

unfoldable pub drop_error : {E A : Type 0} → Outcome E A → Outcome (Unit {0}) (Unit {0})
drop_error panic = panic
drop_error _ = ok tt

-- The comparisons of an `i32` with a small constant.
abbrev pub i32_gt : ℕ → ℕ → Bool
i32_gt a b = ltb b a && ltb a (2 ^ 31)

abbrev pub i32_lt : ℕ → ℕ → Bool
i32_lt a b = ltb a b || leb (2 ^ 31) a

module _ {d : Deps} where
  abbrev pub expecting : {A : Type 0} → Method d A → Step d
  expecting f x = let r = f x.agent in (expect r.0, record x { agent = r.1 })

  abbrev pub dropping : {A : Type 0} → Method d A → Step d
  dropping f x = let r = f x.agent in (drop_error r.0, record x { agent = r.1 })

  abbrev pub counted : Step d
  counted x = (ok tt, record x { cnt = (x.cnt + 1) % 2 ^ 32 })

  abbrev pub marked : Step d
  marked x = (ok tt, record x { suspended = true })

  -- `if b { step }`
  abbrev pub when : Bool → Step d → Step d
  when b step = if b then step else pure tt

-- `thread::sleep` lets the world go on.
module _ {d : Deps} (sm : Smlang d) (parts : Parts d) (reader : Reader d)
    (sleep : d.World → d.World) where
  abbrev pub slept : Step d
  slept x = (
    ok tt,
    record x {
      agent = record x.agent {
        context = record x.agent.context { world = sleep x.agent.context.world };
      };
    },
  )

  unfoldable pub on_update : Fallible (OtaUpdate d) → Step d
  unfolding expect drop_error
  on_update (ok (OtaUpdate.job_update job_id job_doc status_details)) =
      expecting (Agent.job_update sm parts job_id job_doc status_details)
  on_update (ok (OtaUpdate.block payload)) = do
    dropping (Agent.handle_message sm parts payload)
    counted
    x ← gets (λ x. x)
    when (i32_gt x.cnt 1000 && not x.suspended) (dropping (Agent.suspend sm parts) >> marked)
  on_update (err e) = pure tt
  on_update panic = lift panic

  unfoldable pub on_notification : Notification → Step d
  unfolding on_update
  on_notification (Notification.publish topic_name payload) =
      on_update (handle_ota reader topic_name payload)
  on_notification Notification.other = pure tt

  unfoldable pub wait_suspended : Step d
  unfolding drop_error
  wait_suspended = do
    x ← gets (λ x. x)
    when (x.suspended && i32_lt x.cnt 1200) (do
      counted
      slept
      y ← gets (λ y. y)
      when (i32_gt y.cnt 1199) (dropping (Agent.resume sm parts)))

  -- One turn of the loop.
  unfoldable pub turn : Notification → Step d
  unfolding expect drop_error on_notification wait_suspended
  turn n = do
    expecting (Agent.timer_callback sm parts)
    on_notification n
    wait_suspended
    dropping (Agent.process_event sm parts)

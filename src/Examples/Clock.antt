-- ===== src/Examples/Clock.antt =====
-- examples/common/clock.rs: the clock of the examples, which is also the request timer of their agent.
pub mod Countdown
use rustot.Prelude.{
  ℕ, ◌+◌, Option, none, some, Outcome, ok, err, panic, map_ok, map_err, leb, if◌then◌else◌,
}
use rustot.Prelude.Stateful.{Exec}
use rustot.Deps.{Deps}
use rustot.Ota.Config.{u32, u32_sub}
use rustot.Ota.State.Context.{CountDown}

pub record SysClock : Type 0 where
  pub start_time : ℕ  -- u32
  pub countdown_end : Option ℕ

-- `nb::Error<()>`
pub data NbError : Type 0 where
  would_block other : NbError

-- `SystemTime::now().duration_since(UNIX_EPOCH)` in milliseconds, which fails before the epoch.
abbrev pub Reading : Type 0
Reading = Option ℕ

unfoldable pub epoch : {E : Type 0} → Reading → Outcome E ℕ
epoch none = panic
epoch (some millis) = ok (u32 millis)

unfoldable pub new : {E : Type 0} → Reading → Outcome E SysClock
unfolding epoch
new reading = map_ok (λ t. record { start_time = t; countdown_end = none }) (epoch reading)

-- A call on the clock, at a reading of the system's time.
abbrev pub OnClock : Type 0 → Type 0
OnClock A = Exec SysClock NbError A

unfoldable pub now : {E : Type 0} → Reading → SysClock → Outcome E ℕ
unfolding epoch
now reading clock = map_ok (λ t. u32_sub t clock.start_time) (epoch reading)

unfoldable pub try_start : Reading → ℕ → OnClock (Unit {0})
unfolding now
try_start reading count_ms clock = elim (now {E = NbError} reading clock) [
  | ok t ↦ (ok tt, record clock { countdown_end = some (u32 (t + count_ms)) })
  | err e ↦ (err e, clock)
  | panic ↦ (panic, clock)
]

ends : Option ℕ → Reading → OnClock (Unit {0})
unfolding now
ends none reading clock = (err NbError.other, clock)
ends (some end) reading clock = elim (now {E = NbError} reading clock) [
  | ok t ↦
      if leb end t
      then (ok tt, record clock { countdown_end = none })
      else (err NbError.would_block, clock)
  | err e ↦ (err e, clock)
  | panic ↦ (panic, clock)
]

unfoldable pub try_wait : Reading → OnClock (Unit {0})
unfolding ends
try_wait reading clock = ends clock.countdown_end reading clock

unfoldable pub try_cancel : OnClock (Unit {0})
try_cancel clock = (ok tt, record clock { countdown_end = none })

-- Where the clock stands in the world, and what the system's time is.
pub record ClockWorld (d : Deps) : Type 0 where
  pub clock : d.World → SysClock
  pub set_clock : SysClock → d.World → d.World
  pub reading : d.World → Reading

module _ {d : Deps} (cw : ClockWorld d) where
  on_clock : (Reading → OnClock (Unit {0})) → Exec d.World (Unit {0}) (Unit {0})
  on_clock f w =
      let r = f (cw.reading w) (cw.clock w) in (map_err (λ e. tt) r.0, cw.set_clock r.1 w)

  -- The clock as the request timer of an agent, which does not look at its errors.
  unfoldable pub sys_clock : CountDown d
  unfolding on_clock try_start try_wait try_cancel
  sys_clock = record {
    begin = λ ms. on_clock (λ reading. try_start reading ms);
    wait = on_clock try_wait;
    cancel = on_clock (λ reading. try_cancel);
  }

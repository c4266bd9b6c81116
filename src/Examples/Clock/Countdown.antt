-- ===== src/Examples/Clock/Countdown.antt =====
-- examples/common/clock.rs: when a countdown is over.
use rustot.Prelude.{
  ℕ, ◌+◌, ◌-◌, ◌^◌, ◌≤◌, ◌<◌, ◌≡◌, refl, Option, none, some, Outcome, ok, err, leb, if◌then◌else◌,
  arith,
}
use rustot.Ota.Config.{u32, u32_sub}
use rustot.Examples.Clock.{SysClock, NbError, epoch, now, try_start, try_wait, try_cancel}

-- The time since the clock was made, while it fits 32 bits. That the epoch's milliseconds do not fit
-- does not matter.
uptime : (s t : ℕ) → s ≤ t → t - s < 2 ^ 32 → u32_sub (u32 t) (u32 s) ≡ t - s
uptime s t h l = omega arith

-- A clock that was made at the time `s` and counts down from the time `t`.
module _ (s t count : ℕ) (made : s ≤ t) (up : t - s < 2 ^ 32) where
  abbrev pub begun : Option ℕ → SysClock × Outcome NbError (Unit {0})
  begun old =
      let r = try_start (some t) count (record { start_time = u32 s; countdown_end = old }) in
      (r.1, r.0)

  -- While the time since the clock was made and the countdown fit 32 bits, the countdown ends when its
  -- milliseconds are over: a look at it before that would block and changes nothing, and the first one
  -- after that succeeds and takes it away. Where they do not fit, it ends at once.
  pub try_wait-try_start :
      (old : Option ℕ) (t' : ℕ)
      → t ≤ t'
      → t' - s < 2 ^ 32
      → count < 2 ^ 32
      → let c = (begun old).0 in
        let over : SysClock = record { start_time = u32 s; countdown_end = none } in
        ((begun old).1 ≡ ok tt)
        × (t - s + count < 2 ^ 32
            → try_wait (some t') c
              ≡ (if leb (t + count) t' then (ok tt, over) else (err NbError.would_block, c)))
        × (2 ^ 32 ≤ t - s + count → try_wait (some t) c ≡ (ok tt, over))
        × (try_wait (some t') (try_cancel c).1 ≡ (err NbError.other, over))
  unfolding try_wait try_start now epoch try_cancel
  try_wait-try_start old t' h l b =
      let then_up : u32_sub (u32 t) (u32 s) ≡ t - s = uptime s t made up in
      let now_up : u32_sub (u32 t') (u32 s) ≡ t' - s = uptime s t' (omega arith) l in
      (refl, λ f. rw (then_up, now_up) (ground arith), λ f. rw then_up (ground arith), refl)

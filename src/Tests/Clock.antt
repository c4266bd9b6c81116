-- ===== src/Tests/Clock.antt =====
-- A countdown of eight seconds, five seconds after the clock was made.
use rustot.Prelude.{ℕ, ◌+◌, ◌-◌, ◌^◌, ◌≤◌, ◌<◌, ◌≡◌, none, ok, err, some, leb, arith, if◌then◌else◌}
use rustot.Ota.Config.{u32}
use rustot.Examples.Clock.{SysClock, NbError, try_wait, try_cancel}
use rustot.Examples.Clock.Countdown.{begun, try_wait-try_start}

abbrev made : ℕ
made = 1700000000000

abbrev from : ℕ
from = made + 5000

abbrev clock : SysClock
clock = (begun made from 8000 (omega arith) (omega arith) none).0

abbrev over : SysClock
over = record { start_time = u32 made; countdown_end = none }

try_wait-try_start_example :
    ((begun made from 8000 (omega arith) (omega arith) none).1 ≡ ok tt)
    × (from - made + 8000 < 2 ^ 32
        → try_wait (some (from + 7999)) clock ≡ (
            if leb (from + 8000) (from + 7999)
            then (ok tt, over)
            else (err NbError.would_block, clock)))
    × (2 ^ 32 ≤ from - made + 8000 → try_wait (some from) clock ≡ (ok tt, over))
    × (try_wait (some (from + 7999)) (try_cancel clock).1 ≡ (err NbError.other, over))
try_wait-try_start_example =
    try_wait-try_start made from 8000 (omega arith) (omega arith) none (from + 7999) (omega arith)
      (omega arith) (omega arith)

-- ===== src/Ota/Encoding/Json/Reasons.antt =====
-- src/ota/encoding/json.rs: reasons and their texts.
use rustot.Prelude.{◌≡◌, ◌↔◌, some, ok, arith, Str, codes}
use rustot.Prelude.{str_eq_iff}
use rustot.Ota.Error.{OtaError}
use rustot.Ota.Encoding.Json.{JobStatusReason, as_str, reason_from_str}

-- A reason has a text exactly where that text is read back as the reason.
pub as_str-reason_from_str :
    (r : JobStatusReason) (s : Str)
    → (as_str {E = OtaError} r ≡ ok s) ↔ (reason_from_str s ≡ some r)
unfolding as_str reason_from_str
as_str-reason_from_str r s = ground (
  arith,
  str_eq_iff s (codes "receiving"),
  str_eq_iff s (codes "ready"),
  str_eq_iff s (codes "active"),
  str_eq_iff s (codes "accepted"),
  str_eq_iff s (codes "rejected"),
  str_eq_iff s (codes "aborted"),
)

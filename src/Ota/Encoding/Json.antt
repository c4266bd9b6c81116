-- ===== src/Ota/Encoding/Json.antt =====
-- src/ota/encoding/json.rs: the job document, and the reasons that go into a job's status details.
pub mod Reasons
use rustot.Prelude.{
  ℕ, Bool, true, false, Option, none, some, List, [], ◌∷◌, Outcome, ok, err, panic, if◌then◌else◌,
  ◌==◌, Str, codes, str_eq,
}
use rustot.Ota.Protocol.{Protocol}

pub data Signature : Type 0 where
  sha1_rsa sha256_rsa sha1_ecdsa sha256_ecdsa : Str → Signature

pub record FileDescription : Type 0 where
  pub filepath : Str
  pub filesize : ℕ  -- usize
  pub fileid : ℕ  -- u8
  pub certfile : Str
  pub update_data_url : Option Str
  pub auth_scheme : Option Str
  pub sha1_rsa : Option Str
  pub sha256_rsa : Option Str
  pub sha1_ecdsa : Option Str
  pub sha256_ecdsa : Option Str
  pub file_type : Option ℕ  -- u32

pub record OtaJob : Type 0 where
  pub protocols : List Protocol
  pub streamname : Str
  pub files : List FileDescription

first_signature : Option Str → Option Str → Option Str → Option Str → Option Signature
first_signature (some sig) _ _ _ = some (Signature.sha1_rsa sig)
first_signature none (some sig) _ _ = some (Signature.sha256_rsa sig)
first_signature none none (some sig) _ = some (Signature.sha1_ecdsa sig)
first_signature none none none (some sig) = some (Signature.sha256_ecdsa sig)
first_signature none none none none = none

or_unreachable : {E A : Type 0} → Option A → Outcome E A
or_unreachable (some a) = ok a
or_unreachable none = panic

-- `FileDescription::signature`: the first one that is given; `unreachable!()` where there is none.
unfoldable pub signature : {E : Type 0} → FileDescription → Outcome E Signature
unfolding first_signature or_unreachable
signature f = or_unreachable (first_signature f.sha1_rsa f.sha256_rsa f.sha1_ecdsa f.sha256_ecdsa)

pub data JobStatusReason : Type 0 where
  receiving sig_check_passed self_test_active accepted rejected aborted : JobStatusReason
  pal : ℕ → JobStatusReason

-- `todo!()` for a platform's code.
unfoldable pub as_str : {E : Type 0} → JobStatusReason → Outcome E Str
as_str JobStatusReason.receiving = ok (codes "receiving")
as_str JobStatusReason.sig_check_passed = ok (codes "ready")
as_str JobStatusReason.self_test_active = ok (codes "active")
as_str JobStatusReason.accepted = ok (codes "accepted")
as_str JobStatusReason.rejected = ok (codes "rejected")
as_str JobStatusReason.aborted = ok (codes "aborted")
as_str (JobStatusReason.pal n) = panic

unfoldable pub reason_from_str : Str → Option JobStatusReason
reason_from_str s =
    if str_eq s (codes "receiving")
    then some JobStatusReason.receiving
    else if str_eq s (codes "ready")
    then some JobStatusReason.sig_check_passed
    else if str_eq s (codes "active")
    then some JobStatusReason.self_test_active
    else if str_eq s (codes "accepted")
    then some JobStatusReason.accepted
    else if str_eq s (codes "rejected")
    then some JobStatusReason.rejected
    else if str_eq s (codes "aborted")
    then some JobStatusReason.aborted
    else none

-- The test of `FileContext::self_test`: `SigCheckPassed` or `SelfTestActive`.
unfoldable pub is_self_test_reason : JobStatusReason → Bool
is_self_test_reason JobStatusReason.sig_check_passed = true
is_self_test_reason JobStatusReason.self_test_active = true
is_self_test_reason _ = false

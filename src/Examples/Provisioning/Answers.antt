-- ===== src/Examples/Provisioning/Answers.antt =====
-- examples/provisioning.rs: what each message is for the device, and what it gets in the end.
use rustot.Prelude.{
  ℕ, ◌≡◌, refl, ◌⊎◌, Option, none, some, List, [], ◌∷◌, Outcome, ok, err, panic, ok_or, map_ok, inl,
  inr, leb, length, Str, str_eq, if◌then◌else◌,
}
use rustot.Provisioning.Error.{Error}
use rustot.Provisioning.Topics.{Topic, from_str}
use rustot.Provisioning.Messages.{Codec, decode}
use rustot.Examples.Provisioning.{OwnedCredentials, Notification}

-- What a message is for the device.
pub data Answer : Type 0 where
  credited : OwnedCredentials → Answer
  configured refused broken ignored : Answer

pub Answer-cases :
    (a : Answer)
    → ((c : OwnedCredentials) × (a ≡ Answer.credited c))
      ⊎ (a ≡ Answer.configured)
      ⊎ (a ≡ Answer.refused)
      ⊎ (a ≡ Answer.broken)
      ⊎ (a ≡ Answer.ignored)
Answer-cases (Answer.credited c) = inl (c, refl)
Answer-cases Answer.configured = inr (inl refl)
Answer-cases Answer.refused = inr (inr (inl refl))
Answer-cases Answer.broken = inr (inr (inr (inl refl)))
Answer-cases Answer.ignored = inr (inr (inr (inr refl)))

unfoldable pub of_decoded : {A : Type 0} → (A → Answer) → Outcome Error A → Answer
of_decoded f (ok a) = f a
of_decoded f (err e) = Answer.refused
of_decoded f panic = Answer.broken

-- Credentials that come with a token, which has room for 512 bytes.
unfoldable pub credit : Str → OwnedCredentials → Answer
credit token c = if leb (length token) 512 then Answer.credited c else Answer.broken

unfoldable pub answer_to : Codec → Str → Option Topic → List ℕ → Answer
unfolding of_decoded credit
answer_to codec client (some (Topic.create_keys_and_certificate_accepted f)) payload =
    of_decoded
      (λ r. credit r.certificate_ownership_token (record {
        certificate_id = r.certificate_id;
        certificate_pem = r.certificate_pem;
        private_key = some r.private_key;
      }))
      (decode codec.keys f payload)
answer_to codec client (some (Topic.create_certificate_from_csr_accepted f)) payload =
    of_decoded
      (λ r. credit r.certificate_ownership_token (record {
        certificate_id = r.certificate_id;
        certificate_pem = r.certificate_pem;
        private_key = none;
      }))
      (decode codec.csr f payload)
answer_to codec client (some (Topic.register_thing_accepted _ f)) payload =
    of_decoded (λ r. if str_eq r.thing_name client then Answer.configured else Answer.broken)
      (decode codec.thing f payload)
answer_to codec client (some (Topic.create_keys_and_certificate_rejected f)) payload =
    of_decoded (λ r. Answer.refused) (decode codec.error f payload)
answer_to codec client (some (Topic.create_certificate_from_csr_rejected f)) payload =
    of_decoded (λ r. Answer.refused) (decode codec.error f payload)
answer_to codec client (some (Topic.register_thing_rejected _ f)) payload =
    of_decoded (λ r. Answer.refused) (decode codec.error f payload)
answer_to codec client _ payload = Answer.ignored

unfoldable pub answer_of : Codec → Str → Notification → Answer
unfolding answer_to
answer_of codec client (Notification.publish topic payload) =
    answer_to codec client (from_str topic) payload
answer_of codec client _ = Answer.ignored

-- The specification: the last credentials before the first message that ends the loop.
unfoldable pub verdict :
    Codec
    → Str
    → List Notification
    → Option OwnedCredentials
    → Outcome (Unit {0}) (Option OwnedCredentials)
unfolding answer_of
verdict codec client [] held = ok none
verdict codec client (n ∷ ns) held = elim (answer_of codec client n) [
  | Answer.credited c ↦ verdict codec client ns (some c)
  | Answer.configured ↦ map_ok some (ok_or tt held)
  | Answer.refused ↦ err tt
  | Answer.broken ↦ panic
  | Answer.ignored ↦ verdict codec client ns held
]

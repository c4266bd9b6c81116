-- ===== src/Tests/Certificate.antt =====
-- A device that gets its certificate.
use rustot.Prelude.{ℕ, ◌≡◌, refl, true, some, List, [], ◌∷◌, ok, codes, Str}
use rustot.Prelude.Text.{splitn}
use rustot.Deps.Reference.{reference-MapLaws}
use rustot.Provisioning.Messages.{decode, encode}
use rustot.Provisioning.Topics.{PayloadFormat, from_str}
use rustot.Examples.Provisioning.{Notification, OwnedCredentials, parameters, provision_credentials}
use rustot.Examples.Provisioning.Answers.{verdict, answer_of, answer_to, of_decoded, credit}
use rustot.Examples.Provisioning.Verdict.{Sends, provision_credentials_lem}
use rustot.Tests.Client.{mqtt, codec}

abbrev got : OwnedCredentials
got = record { certificate_id = []; certificate_pem = []; private_key = some [] }

-- The subscription is confirmed, then the certificate and the configuration come in.
abbrev notifications : List Notification
notifications =
    Notification.suback
    ∷ Notification.publish (codes "$aws/certificates/create/cbor/accepted") (7 ∷ [])
    ∷ Notification.publish
        (codes "$aws/provisioning-templates/provision_template/provision/cbor/accepted")
        (codes "thing")
    ∷ []

encoded :
    (f : PayloadFormat) (token : Str)
    → encode codec f (record { certificate_ownership_token = token; parameters = some parameters })
      ≡ ok token
unfolding encode
encoded PayloadFormat.cbor token = refl
encoded PayloadFormat.json token = refl

sends : Sends mqtt codec
sends = record {
  published = λ topic payload q w. refl;
  subscribed = λ topics w. refl;
  unsubscribed = λ topics w. refl;
  encoded = λ f token l. (token, encoded f token);
}

provision_credentials_lem_example :
    (provision_credentials mqtt codec true notifications 0).0 ≡ ok (some got)
unfolding verdict answer_of answer_to of_decoded credit from_str splitn decode
provision_credentials_lem_example =
    provision_credentials_lem mqtt codec (reference-MapLaws ℕ) sends true notifications 0

-- ===== src/Provisioning/Topics.antt =====
-- src/provisioning/topics.rs: the topics of fleet provisioning, as texts and read back.
pub mod Reading
pub mod Prefix
use rustot.Prelude.{
  ℕ, Bool, true, false, ◌&&◌, Option, none, some, List, [], ◌∷◌, ◌++◌, Outcome, ok, err, ◌||◌,
  if◌then◌else◌, Str, str_eq, codes,
}
use rustot.Prelude.Text.{splitn, starts_with}
use rustot.Deps.{Deps}
use rustot.Provisioning.Error.{Error}

pub data Direction : Type 0 where
  incoming outgoing : Direction

pub data PayloadFormat : Type 0 where
  cbor json : PayloadFormat

-- `Display for PayloadFormat`
unfoldable pub format_text : PayloadFormat → Str
format_text PayloadFormat.cbor = codes "cbor"
format_text PayloadFormat.json = codes "json"

-- `FromStr for PayloadFormat`
unfoldable pub read_format : Str → Option PayloadFormat
read_format s =
    if str_eq s (codes "cbor")
    then some PayloadFormat.cbor
    else if str_eq s (codes "json")
    then some PayloadFormat.json
    else none

pub data Topic : Type 0 where
  register_thing register_thing_accepted register_thing_rejected : Str → PayloadFormat → Topic
  create_keys_and_certificate create_certificate_from_csr : PayloadFormat → Topic
  create_keys_and_certificate_accepted create_keys_and_certificate_rejected : PayloadFormat → Topic
  create_certificate_from_csr_accepted create_certificate_from_csr_rejected : PayloadFormat → Topic

-- `Topic::direction`
unfoldable pub direction : Topic → Direction
direction (Topic.register_thing template f) = Direction.outgoing
direction (Topic.create_keys_and_certificate f) = Direction.outgoing
direction (Topic.create_certificate_from_csr f) = Direction.outgoing
direction _ = Direction.incoming

-- `Topic::check`
unfoldable pub check : Str → Bool
unfolding starts_with
check s =
    starts_with (codes "$aws/certificates") s || starts_with (codes "$aws/provisioning-templates") s

with_format : (PayloadFormat → Topic) → Option PayloadFormat → Option Topic
with_format topic none = none
with_format topic (some f) = some (topic f)

unfoldable read_template : List Str → Option Topic
unfolding with_format read_format
read_template (template ∷ provision ∷ format ∷ answer ∷ _) =
    if str_eq provision (codes "provision") && str_eq answer (codes "accepted")
    then with_format (Topic.register_thing_accepted template) (read_format format)
    else if str_eq provision (codes "provision") && str_eq answer (codes "rejected")
    then with_format (Topic.register_thing_rejected template) (read_format format)
    else none
read_template _ = none

-- What follows the answer is not looked at.
unfoldable read_certificate : List Str → Option Topic
unfolding with_format read_format
read_certificate (kind ∷ format ∷ answer ∷ _) =
    if str_eq kind (codes "create") && str_eq answer (codes "accepted")
    then with_format Topic.create_keys_and_certificate_accepted (read_format format)
    else if str_eq kind (codes "create") && str_eq answer (codes "rejected")
    then with_format Topic.create_keys_and_certificate_rejected (read_format format)
    else if str_eq kind (codes "create-from-csr") && str_eq answer (codes "accepted")
    then with_format Topic.create_certificate_from_csr_accepted (read_format format)
    else if str_eq kind (codes "create-from-csr") && str_eq answer (codes "rejected")
    then with_format Topic.create_certificate_from_csr_rejected (read_format format)
    else none
read_certificate _ = none

unfoldable pub read_pieces : List Str → Option Topic
unfolding read_template read_certificate
read_pieces (a ∷ b ∷ rest) =
    if str_eq a (codes "$aws") && str_eq b (codes "provisioning-templates")
    then read_template rest
    else if str_eq a (codes "$aws") && str_eq b (codes "certificates")
    then read_certificate rest
    else none
read_pieces _ = none

-- `Topic::from_str`
unfoldable pub from_str : Str → Option Topic
unfolding read_pieces
from_str s = read_pieces (splitn 6 b'/' s)

-- What follows `PROVISIONING_PREFIX`, and what follows `CERT_PREFIX`.
unfoldable pub template_text : Str → Str → Str
template_text template rest =
    codes "$aws"
    ++ b'/'
      ∷ (codes "provisioning-templates"
          ++ b'/' ∷ (template ++ b'/' ∷ (codes "provision" ++ b'/' ∷ rest)))

unfoldable pub certificate_text : Str → Str → Str
certificate_text kind rest =
    codes "$aws" ++ b'/' ∷ (codes "certificates" ++ b'/' ∷ (kind ++ b'/' ∷ rest))

-- The text that `format` writes. The answers to a signing request have no suffix.
unfoldable pub topic_text : Topic → Str
unfolding template_text certificate_text format_text
topic_text (Topic.register_thing template f) = template_text template (format_text f)
topic_text (Topic.register_thing_accepted template f) =
    template_text template (format_text f ++ b'/' ∷ codes "accepted")
topic_text (Topic.register_thing_rejected template f) =
    template_text template (format_text f ++ b'/' ∷ codes "rejected")
topic_text (Topic.create_keys_and_certificate f) = certificate_text (codes "create") (format_text f)
topic_text (Topic.create_keys_and_certificate_accepted f) =
    certificate_text (codes "create") (format_text f ++ b'/' ∷ codes "accepted")
topic_text (Topic.create_keys_and_certificate_rejected f) =
    certificate_text (codes "create") (format_text f ++ b'/' ∷ codes "rejected")
topic_text (Topic.create_certificate_from_csr f) =
    certificate_text (codes "create-from-csr") (format_text f)
topic_text (Topic.create_certificate_from_csr_accepted f) =
    certificate_text (codes "create-from-csr") (format_text f)
topic_text (Topic.create_certificate_from_csr_rejected f) =
    certificate_text (codes "create-from-csr") (format_text f)

-- `Topic::format::<L>`: writing past the capacity is an overflow.
unfoldable pub format : Deps → ℕ → Topic → Outcome Error Str
unfolding topic_text
format d capacity topic =
    if d.fits capacity (topic_text topic) then ok (topic_text topic) else err Error.overflow

-- ===== src/Provisioning/Topics/Reading.antt =====
-- src/provisioning/topics.rs: the text of a topic, read back.
use rustot.Prelude.{
  ℕ, suc, ◌≡◌, ap, ◌∙◌, Bool, true, false, none, some, List, refl, ◌∷◌, [], Str, ◌++◌, codes,
}
use rustot.Prelude.Text.{has, splitn, splitn-append, splitn_last}
use rustot.Provisioning.Topics.{
  PayloadFormat, Topic, Direction, direction, format_text, read_format, template_text,
  certificate_text, topic_text, from_str, read_pieces, read_template, read_certificate,
}

read_format-format_text : (f : PayloadFormat) → read_format (format_text f) ≡ some f
unfolding read_format format_text
read_format-format_text PayloadFormat.cbor = refl
read_format-format_text PayloadFormat.json = refl

has-format_text : (f : PayloadFormat) → has b'/' (format_text f) ≡ false
unfolding has format_text
has-format_text PayloadFormat.cbor = refl
has-format_text PayloadFormat.json = refl

-- The pieces of a text that is put together with slashes.
cut :
    (n : ℕ) (s t : Str) (ps : List Str)
    → has b'/' s ≡ false
    → splitn (suc n) b'/' t ≡ ps
    → splitn (suc (suc n)) b'/' (s ++ b'/' ∷ t) ≡ s ∷ ps
cut n s t ps h e = splitn-append n b'/' s t h ∙ ap (λ (l : List Str). s ∷ l) e

template_pieces :
    (template answer : Str) (f : PayloadFormat)
    → has b'/' template ≡ false
    → has b'/' answer ≡ false
    → splitn 6 b'/' (template_text template (format_text f ++ b'/' ∷ answer))
      ≡ codes "$aws"
        ∷ codes "provisioning-templates"
        ∷ template
        ∷ codes "provision"
        ∷ format_text f
        ∷ answer
        ∷ []
unfolding template_text has
template_pieces template answer f h k = cut 4 _ _ _ refl (
    cut 3 _ _ _ refl (
      cut 2 template _ _ h
        (cut 1 _ _ _ refl (cut 0 _ _ _ (has-format_text f) (splitn_last 0 b'/' answer k)))))

certificate_pieces :
    (kind answer : Str) (f : PayloadFormat)
    → has b'/' kind ≡ false
    → has b'/' answer ≡ false
    → splitn 6 b'/' (certificate_text kind (format_text f ++ b'/' ∷ answer))
      ≡ codes "$aws" ∷ codes "certificates" ∷ kind ∷ format_text f ∷ answer ∷ []
unfolding certificate_text has
certificate_pieces kind answer f h k = cut 4 _ _ _ refl (
    cut 3 _ _ _ refl
      (cut 2 kind _ _ h (cut 1 _ _ _ (has-format_text f) (splitn_last 1 b'/' answer k))))

abbrev pub template_of : Topic → Str
template_of (Topic.register_thing_accepted template f) = template
template_of (Topic.register_thing_rejected template f) = template
template_of _ = codes ""

-- The topics of the answers to a signing request.
abbrev pub of_csr : Topic → Bool
of_csr (Topic.create_certificate_from_csr_accepted f) = true
of_csr (Topic.create_certificate_from_csr_rejected f) = true
of_csr _ = false

-- The text of a topic for an answer, unless it answers a signing request, is read back as that topic
-- where the template's name has no slash.
pub from_str-topic_text :
    (t : Topic)
    → direction t ≡ Direction.incoming
    → of_csr t ≡ false
    → has b'/' (template_of t) ≡ false
    → from_str (topic_text t) ≡ some t
unfolding from_str read_pieces read_template read_certificate topic_text direction has
from_str-topic_text (Topic.register_thing_accepted template f) d c h =
    ap read_pieces (template_pieces template (codes "accepted") f h refl)
    ∙ rw (read_format-format_text f)
from_str-topic_text (Topic.register_thing_rejected template f) d c h =
    ap read_pieces (template_pieces template (codes "rejected") f h refl)
    ∙ rw (read_format-format_text f)
from_str-topic_text (Topic.create_keys_and_certificate_accepted f) d c h =
    ap read_pieces (certificate_pieces (codes "create") (codes "accepted") f refl refl)
    ∙ rw (read_format-format_text f)
from_str-topic_text (Topic.create_keys_and_certificate_rejected f) d c h =
    ap read_pieces (certificate_pieces (codes "create") (codes "rejected") f refl refl)
    ∙ rw (read_format-format_text f)
from_str-topic_text (Topic.register_thing template f) d c h = cc
from_str-topic_text (Topic.create_keys_and_certificate f) d c h = cc
from_str-topic_text (Topic.create_certificate_from_csr f) d c h = cc
from_str-topic_text (Topic.create_certificate_from_csr_accepted f) d c h = cc
from_str-topic_text (Topic.create_certificate_from_csr_rejected f) d c h = cc

-- In either format, a text with the suffix `/accepted` or `/rejected` behind the topic of a signing
-- request is read as the answer to that request, but the text of the answer's topic is that of the
-- request itself, and is not read as a topic at all.
pub csr_answers_unread :
    (f : PayloadFormat)
    → let request = topic_text (Topic.create_certificate_from_csr f) in
      (from_str (request ++ codes "/accepted")
        ≡ some (Topic.create_certificate_from_csr_accepted f))
      × (from_str (request ++ codes "/rejected")
          ≡ some (Topic.create_certificate_from_csr_rejected f))
      × (topic_text (Topic.create_certificate_from_csr_accepted f) ≡ request)
      × (topic_text (Topic.create_certificate_from_csr_rejected f) ≡ request)
      × (from_str request ≡ none)
unfolding from_str read_pieces read_certificate topic_text certificate_text format_text read_format
    splitn
csr_answers_unread PayloadFormat.cbor = (refl, refl, refl, refl, refl)
csr_answers_unread PayloadFormat.json = (refl, refl, refl, refl, refl)

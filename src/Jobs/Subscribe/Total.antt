-- ===== src/Jobs/Subscribe/Total.antt =====
-- src/jobs/subscribe.rs: the texts of a subscription that was put together.
use rustot.Prelude.{
  ℕ, ◌≤◌, ◌≡◌, refl, subst, sym, true, List, [], ◌∷◌, ◌++◌, map, ok, arith, length, length-append,
  Str, codes, Bool-cases, ◌⊎◌, inl, inr, any, ltb,
}
use rustot.Deps.{Deps, MapLaws}
use rustot.Jobs.Topics.{Topic, job_topic, tail, topic_path, format}
use rustot.Mqtt.{QoS}
use rustot.Jobs.Subscribe.{Subscribe, topic_eq, fits_job, topic, topic_paths, topics}

-- Each topic's job fits.
pub data Fits : Subscribe → Type 0 where
  nil : Fits []
  cons :
      (t : Topic) (q : QoS) (rest : Subscribe)
      → fits_job t ≡ true
      → Fits rest
      → Fits ((t, q) ∷ rest)

append-Fits :
    (s : Subscribe) (t : Topic) (q : QoS) → fits_job t ≡ true → Fits s → Fits (s ++ (t, q) ∷ [])
append-Fits [] t q h nil = cons t q [] h nil
append-Fits ((u, r) ∷ rest) t q h (cons _ _ _ k f) = cons u r _ k (append-Fits rest t q h f)

-- A subscription that `topic` makes from the empty one.
pub data Made (capacity : ℕ) : Subscribe → Type 0 where
  new : Made capacity []
  added :
      (s s' : Subscribe) (t : Topic) (q : QoS)
      → Made capacity s
      → topic capacity t q s ≡ ok s'
      → Made capacity s'

length-tail : (t : Topic) → fits_job t ≡ true → length (tail (job_topic t)) ≤ 80
unfolding tail job_topic fits_job
length-tail Topic.notify h = omega arith
length-tail Topic.notify_next h = omega arith
length-tail Topic.get_accepted h = omega arith
length-tail Topic.get_rejected h = omega arith
length-tail Topic.start_next_accepted h = omega arith
length-tail Topic.start_next_rejected h = omega arith
length-tail (Topic.describe_accepted j) h = ground (arith, length-append j (codes "/get/accepted"))
length-tail (Topic.describe_rejected j) h = ground (arith, length-append j (codes "/get/rejected"))
length-tail (Topic.update_accepted j) h = ground (arith, length-append j (codes "/update/accepted"))
length-tail (Topic.update_rejected j) h = ground (arith, length-append j (codes "/update/rejected"))

length-topic_path :
    (t : Topic) (client_id : Str)
    → fits_job t ≡ true
    → length client_id ≤ 128
    → length (topic_path (job_topic t) client_id) ≤ 256
unfolding topic_path
length-topic_path t client_id h l = omega (
  arith,
  length-tail t h,
  length-append client_id (b'/' ∷ (codes "jobs" ++ b'/' ∷ tail (job_topic t))),
)

abbrev paths_of : Str → Subscribe → List (Str × QoS)
paths_of client_id s = map (λ (r : Topic × QoS). (topic_path (job_topic r.0) client_id, r.1)) s

module _ (d : Deps) (laws : MapLaws d) (client_id : Str) (l : length client_id ≤ 128) where
  format_total :
      (t : Topic)
      → fits_job t ≡ true
      → format d 256 (job_topic t) client_id ≡ ok (topic_path (job_topic t) client_id)
  unfolding format
  format_total t h =
      let p = topic_path (job_topic t) client_id in
      ground (arith, laws.fits_lem 256 p, length-topic_path t client_id h l)

  topic_paths_total :
      (s : Subscribe) → Fits s → topic_paths d client_id s ≡ ok (paths_of client_id s)
  unfolding topic_paths
  topic_paths_total [] nil = refl
  topic_paths_total ((t, q) ∷ rest) (cons _ _ _ h f) =
      simp (format_total t h, topic_paths_total rest f) refl

topic_cases :
    (capacity : ℕ) (t : Topic) (q : QoS) (s s' : Subscribe)
    → topic capacity t q s ≡ ok s'
    → (fits_job t ≡ true) × ((s' ≡ s) ⊎ (s' ≡ s ++ (t, q) ∷ []))
unfolding topic
topic_cases capacity t q s s' e =
    let there = any (λ (r : Topic × QoS). topic_eq r.0 t) s in
    elim (Bool-cases (fits_job t)) [
      | inl h ↦ elim (Bool-cases there) [
        | inl k ↦ (h, inl (ground (arith, h, k, e)))
        | inr k ↦ elim (Bool-cases (ltb (length s) capacity)) [
          | inl r ↦ (h, inr (ground (arith, h, k, r, e)))
          | inr r ↦ (h, inl (ground (arith, h, k, r, e)))
        ]
      ]
      | inr h ↦ absurd (ground (arith, h, e))
    ]

made-Fits : (capacity : ℕ) (s : Subscribe) → Made capacity s → Fits s
made-Fits capacity s new = nil
made-Fits capacity s (added s0 _ t q m e) =
    let f = made-Fits capacity s0 m in
    let (h, k) = topic_cases capacity t q s0 s e in
    elim k [ inl p ↦ subst Fits (sym p) f | inr p ↦ subst Fits (sym p) (append-Fits s0 t q h f) ]

-- Where the client's name has at most 128 bytes, a subscription that was put together by `topic` is
-- turned into texts without a panic or an error: it has the text of each of its topics, in order, with
-- the quality of service that was asked for.
pub topics_total :
    (d : Deps) (client_id : Str) (capacity : ℕ) (s : Subscribe)
    → MapLaws d
    → length client_id ≤ 128
    → Made capacity s
    → topics d client_id s
      ≡ ok (map (λ (r : Topic × QoS). (topic_path (job_topic r.0) client_id, r.1)) s)
unfolding topics
topics_total d client_id capacity s laws l m =
    let t = topic_paths_total d laws client_id l s (made-Fits capacity s m) in ground (arith, t)

-- ===== src/Ota/ControlInterface/Mqtt/NextJob.antt =====
-- src/ota/control_interface/mqtt.rs: the request for the next job.
use rustot.Prelude.{
  ℕ, ◌+◌, ◌≤◌, ◌≡◌, some, List, ◌∷◌, ◌++◌, ok, err, arith, length, length-append, Str,
}
use rustot.Prelude.Text.{print_u32, length-print_u32}
use rustot.Deps.{Deps, MapLaws}
use rustot.Mqtt.{Mqtt, at_least_once}
use rustot.Jobs.Topics.{JobTopic, topic_path}
use rustot.Jobs.Requests.{Json, JsonLaws, Request, published}
use rustot.Jobs.Requests
use rustot.Jobs.Describe
use rustot.Jobs.Room.{describe_total}
use rustot.Ota.Config.{u32}
use rustot.Ota.Error.{OtaError, from_job_error}
use rustot.Ota.ControlInterface.Mqtt.{RequestCnt, request_token, subscribe_next, request_job}

token_of : ℕ → Str → Str
token_of n client_id = print_u32 n ++ b':' ∷ client_id

length-token_of :
    (n : ℕ) (client_id : Str)
    → (length client_id + 2 ≤ length (token_of n client_id))
      × (length (token_of n client_id) ≤ length client_id + 11)
unfolding token_of
length-token_of n client_id =
    omega (arith, length-print_u32 n, length-append (print_u32 n) (b':' ∷ client_id))

module _ {d : Deps} (json : Json d) (mqtt : Mqtt d) (cnt : RequestCnt d) (w : d.World) where
  -- The world once the notifications are subscribed to.
  abbrev subscribed : d.World
  subscribed = (subscribe_next mqtt w).1

  -- Where the client's name has at most 126 bytes, the subscription succeeds and the request is encoded,
  -- a job is asked for with a token of the request's number and the client's name: the payload goes to
  -- the topic of the next job, and the request counter has advanced by one, modulo 2 ^ 32.
  pub request_job-asks :
      (payload : List ℕ)
      → MapLaws d
      → length mqtt.client_id ≤ 126
      → (subscribe_next mqtt w).0 ≡ ok tt
      → let w' = (subscribe_next mqtt w).1 in
        let token = print_u32 (cnt.get w') ++ b':' ∷ mqtt.client_id in
        let path = topic_path JobTopic.get_next mqtt.client_id in
        json.to_vec 140 (Describe.request (record Describe.new { client_token = some token }))
          ≡ some payload
        → (request_job json mqtt cnt w).1
          ≡ (mqtt.publish path payload at_least_once (cnt.set (u32 (cnt.get w' + 1)) w')).1
  unfolding request_job request_token Describe.client_token Describe.new Describe.send
      Describe.topic_of published token_of
  request_job-asks payload laws l s e =
      let w' = subscribed in
      let token = token_of (cnt.get w') mqtt.client_id in
      let path = topic_path JobTopic.get_next mqtt.client_id in
      ground (
        arith,
        s,
        laws.fits_lem 138 token,
        length-token_of (cnt.get w') mqtt.client_id,
        describe_total json mqtt.client_id (record Describe.new { client_token = some token })
            payload laws (omega arith) (omega arith) e,
        e,
      )

  -- Where the client's name has 121 to 126 bytes, which the service allows, a job can not be asked for:
  -- once the subscription succeeded the call fails, since the token with its key is longer than the
  -- buffer of the payload. Nothing is published, and the request counter has advanced.
  pub request_job-unencoded :
      (text : Request d → Str)
      → MapLaws d
      → JsonLaws d json text
      → 121 ≤ length mqtt.client_id
      → length mqtt.client_id ≤ 126
      → (subscribe_next mqtt w).0 ≡ ok tt
      → let w' = (subscribe_next mqtt w).1 in
        request_job json mqtt cnt w ≡ (err OtaError.encoding, cnt.set (u32 (cnt.get w' + 1)) w')
  unfolding request_job request_token Describe.client_token Describe.new Describe.send
      Describe.topic_payload Describe.request Requests.topic_payload published token_of
      from_job_error
  request_job-unencoded text laws json_laws l m s =
      let token = token_of (cnt.get subscribed) mqtt.client_id in
      let r : Request d = Describe.request (record Describe.new { client_token = some token }) in
      ground (
        arith,
        s,
        laws.fits_lem 138 token,
        length-token_of (cnt.get subscribed) mqtt.client_id,
        json_laws.to_vec_lem 140 r,
        laws.fits_lem 140 (text r),
        json_laws.length-token token,
      )

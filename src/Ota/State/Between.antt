-- ===== src/Ota/State/Between.antt =====
-- src/ota/state.rs between two blocks of a file: the report on a block, and the next request.
use rustot.Prelude.{
  ℕ, ◌≡◌, ◌≢◌, sym, subst, ap, ◌∙◌, ◌⊎◌, inl, inr, false, some, List, [], ◌∷◌, ◌++◌, ok, arith, ltb,
  Bool-cases,
}
use rustot.Deps.{Deps, QueueLaws}
use rustot.Jobs.DataTypes.{JobStatus}
use rustot.Ota.Config.{Config, u32_sub}
use rustot.Ota.Encoding.{FileContext}
use rustot.Ota.Encoding.Json.{JobStatusReason}
use rustot.Ota.State.Context.{
  Events, Parts, SmContext, primary, queue_len, EventQueue, file_ctx, set_file_ctx,
}
use rustot.Ota.State.Ingest.{ingest_data_block}
use rustot.Ota.State.Ingest.Arrived.{Worlds}
use rustot.Ota.State.Handlers.{process_data_handler, block_complete, request_data_handler}

-- A file context in which no more than the status details and the count of requested blocks is new.
abbrev pub Touches : {d : Deps} → FileContext d → FileContext d → Type 0
Touches {d} f g =
    (details : d.Map) × (n : ℕ) × (g
      ≡ record f { status_details = details; request_block_remaining = n })

-- A world is of all the kinds of stored blocks that another is of.
abbrev pub Passes : {d : Deps} → Worlds d → d.World → d.World → Type 0
Passes ws w w' = (k : ℕ) → ws.held k w → ws.held k w'

-- The calls succeed that are made between two blocks, and leave the file and the stored blocks as they
-- are.
pub record Continues {d : Deps} (parts : Parts d) (ws : Worlds d) : Type 0 where
  pub reports :
      (c : Config) (f : FileContext d) (w : d.World)
      → let r =
          parts.control.update_job_status c JobStatus.in_progress JobStatusReason.receiving
            (f, w) in
        (r.0 ≡ ok tt) × Touches f r.1.0 × Passes ws w r.1.1
  pub begins :
      (ms : ℕ) (w : d.World)
      → let r = parts.request_timer.begin ms w in (r.0 ≡ ok tt) × Passes ws w r.1
  pub asks :
      (c : Config) (f : FileContext d) (w : d.World)
      → let r = parts.data_primary.request_file_block c (f, w) in
        (r.0 ≡ ok tt) × Touches f r.1.0 × Passes ws w r.1.1

module _ {d : Deps} (laws : QueueLaws d) (parts : Parts d) (ws : Worlds d)
    (continues : Continues parts ws) where
  abbrev items : EventQueue d → List (Events d)
  items q = d.items queue_len (Events d) q

  -- What is left to do after a block: nothing, or one request.
  abbrev pub Quiet : EventQueue d → Type 0
  Quiet q = (items q ≡ []) ⊎ (items q ≡ Events.request_file_block ∷ [])

  -- A block that is not the last is reported, and a queue that was empty holds a request at most.
  pub process_data_handler-continues :
      (payload : List ℕ) (c : SmContext d) (f : FileContext d)
      → let c' = (ingest_data_block parts payload c).1 in
        let r = process_data_handler parts payload c in
        (ingest_data_block parts payload c).0 ≡ ok false
        → c'.active_interface ≡ some (primary f)
        → items c'.events ≡ []
        → (r.0 ≡ ok tt)
          × (r.1.config ≡ c'.config)
          × (r.1.request_momentum ≡ 0)
          × Quiet r.1.events
          × Passes ws c'.world r.1.world
          × (g : FileContext d) × (r.1.active_interface ≡ some (primary g))
          × Touches f g
  unfolding process_data_handler block_complete file_ctx set_file_ctx
  process_data_handler-continues payload c f o a q =
      let c' = (ingest_data_block parts payload c).1 in
      let sent =
        parts.control.update_job_status c'.config JobStatus.in_progress JobStatusReason.receiving
          (f, c'.world) in
      let (reported, (details, n, same), told) = continues.reports c'.config f c'.world in
      let g = sent.1.0 in
      elim (Bool-cases (ltb 1 g.request_block_remaining)) [
        | inl more ↦
            let m = u32_sub g.request_block_remaining 1 in
            (
              ground (arith, o, a, reported, more),
              ground (arith, o, a, reported, more),
              ground (arith, o, a, reported, more),
              inl (ap items (ground (arith, o, a, reported, more)) ∙ q),
              λ k h.
                  let world : (process_data_handler parts payload c).1.world ≡ sent.1.1 =
                    ground (arith, o, a, reported, more) in
                  subst (ws.held k) (sym world) (told k h),
              record g { request_block_remaining = m },
              ground (arith, o, a, reported, more),
              (
                details,
                m,
                ap (λ (h : FileContext d). record h { request_block_remaining = m }) same,
              ),
            )
        | inr done ↦
            let (q1, e, i) =
              laws.enqueue_room queue_len (Events d) Events.request_file_block c'.events
                (rw q (omega arith)) in
            let (begun, kept) = continues.begins c'.config.request_wait_ms sent.1.1 in
            (
              ground (arith, o, a, reported, done, begun, e),
              ground (arith, o, a, reported, done, begun, e),
              ground (arith, o, a, reported, done, begun, e),
              inr (
                  ap items (ground (arith, o, a, reported, done, begun, e))
                  ∙ i
                  ∙ ap (λ l. l ++ Events.request_file_block ∷ []) q),
              λ k h.
                  let w = (parts.request_timer.begin c'.config.request_wait_ms sent.1.1).1 in
                  let world : (process_data_handler parts payload c).1.world ≡ w =
                    ground (arith, o, a, reported, done, begun, e) in
                  subst (ws.held k) (sym world) (kept k (told k h)),
              g,
              ground (arith, o, a, reported, done, begun, e),
              (details, n, same),
            )
      ]

  -- A request with no momentum.
  pub request_data_handler-continues :
      (c : SmContext d) (f : FileContext d)
      → c.active_interface ≡ some (primary f)
      → f.blocks_remaining ≢ 0
      → c.request_momentum ≡ 0
      → let r = request_data_handler parts c in
        (r.0 ≡ ok tt)
        × (r.1.config ≡ c.config)
        × (r.1.events ≡ c.events)
        × Passes ws c.world r.1.world
        × (g : FileContext d) × (r.1.active_interface ≡ some (primary g))
        × Touches f g
  unfolding request_data_handler file_ctx set_file_ctx
  request_data_handler-continues c f a more z =
      let w = (parts.request_timer.begin c.config.request_wait_ms c.world).1 in
      let (begun, kept) = continues.begins c.config.request_wait_ms c.world in
      let (asked, touches, kept') = continues.asks c.config f w in
      let world : (request_data_handler parts c).1.world
          ≡ (parts.data_primary.request_file_block c.config (f, w)).1.1 =
        ground (arith, a, more, begun, asked, z) in
      (
        ground (arith, a, more, begun, asked, z),
        ground (arith, a, more, begun, asked, z),
        ground (arith, a, more, begun, asked, z),
        λ k h. subst (ws.held k) (sym world) (kept' k (kept k h)),
        (parts.data_primary.request_file_block c.config (f, w)).1.0,
        ground (arith, a, more, begun, asked, z),
        touches,
      )

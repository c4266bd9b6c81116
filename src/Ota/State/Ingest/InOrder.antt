-- ===== src/Ota/State/Ingest/InOrder.antt =====
-- `ingest_data_block` of src/ota/state.rs where the blocks of a file come in one after the other.
use rustot.Prelude.{
  ℕ, zero, suc, ◌+◌, ◌-◌, ◌≤◌, ◌<◌, ◌≡◌, refl, sym, ap, ◌∙◌, subst, inl, inr, true, false, some,
  List, ok, arith, ltb, leb, ◌==◌, Bool-cases,
}
use rustot.Deps.{Deps, BitsLaws}
use rustot.Deps.Count.{count_below-none}
use rustot.Ota.Config.{Config}
use rustot.Ota.Encoding.{FileContext}
use rustot.Ota.DataInterface.{FileBlock}
use rustot.Ota.DataInterface.Validate.{file_blocks}
use rustot.Ota.State.Context.{Parts, SmContext, primary, file_ctx, set_file_ctx, data_interface}
use rustot.Ota.State.Ingest.{ingest_data_block}
use rustot.Ota.State.Ingest.Stores.{ingest_data_block-places}
use rustot.Ota.State.Ingest.Refinement.{Ingested, ingest_data_block-Ingested}
use rustot.Ota.State.Ingest.Kept.{ingest_data_block-config, ingest_data_block-Described}
use rustot.Ota.State.Ingest.Window.{missing, IsReceiving}
use rustot.Ota.State.Ingest.Arrived.{Worlds, Streams, Arrived, begins}

-- Where exactly the blocks from `k` on are to come, a window that is not empty has the block `k`.
in_window :
    (d : Deps) (laws : BitsLaws d) (b k : ℕ) (f : FileContext d)
    → IsReceiving d b f
    → ((j : ℕ) → j < file_blocks f.filesize b → missing d f j ≡ leb k j)
    → d.is_empty f.bitmap ≡ false
    → k < f.block_offset + 31
in_window d laws b k f r to_come n = elim (Bool-cases (ltb k (f.block_offset + 31))) [
  | inl e ↦ ground arith
  | inr e ↦
      let gone : (i : ℕ) → i < 32 → d.bit f.bitmap i ≡ false = λ i l.
        let same : f.block_offset + i - f.block_offset ≡ i = omega arith in
        let bits = to_come (f.block_offset + i) in ground (arith, same, r.clear i l, bits) in
      let whole = count_below-none 32 (d.bit f.bitmap) gone in
      ground (arith, laws.is_empty_lem f.bitmap, whole)
]

module _ {d : Deps} (parts : Parts d) (payload : ℕ → List ℕ) where
  -- The context after the first payloads.
  abbrev pub received : ℕ → SmContext d → SmContext d
  received zero c = c
  received (suc k) c = (ingest_data_block parts (payload k) (received k c)).1

module _ {d : Deps} (laws : BitsLaws d) (parts : Parts d) (payload : ℕ → List ℕ)
    (ws : Worlds d) where
  -- One block, in terms of the context itself.
  arrives_here :
      (k : ℕ) (c : SmContext d) (f : FileContext d)
      → Streams parts payload ws c.config.block_size f.filesize
      → c.active_interface ≡ some (primary f)
      → IsReceiving d c.config.block_size f
      → ((j : ℕ) → j < file_blocks f.filesize c.config.block_size → missing d f j ≡ leb k j)
      → f.blocks_remaining + k ≡ file_blocks f.filesize c.config.block_size
      → k < file_blocks f.filesize c.config.block_size
      → k < f.block_offset + 31
      → f.filepath ≡ ws.path
      → ws.held k c.world
      → let r = ingest_data_block parts (payload k) c in
        (r.0 ≡ ok (suc k == file_blocks f.filesize c.config.block_size))
        × Arrived ws c.config.block_size f.filesize (suc k) r.1
  unfolding file_ctx set_file_ctx
  arrives_here k c f service a r to_come left l reach p h =
      let (block, q, id, v, stores) = service.decodes k c f l a in
      let keeps = service.keeps k l in
      let before : ws.held k
          (data_interface parts (λ di. di.decode_file_block (payload k)) c).1.world =
        rw a (service.reads k f c.world l h) in
      let (g, o, a', rem, gone, closed, after) =
        ingest_data_block-places laws parts (payload k) c (primary f) block ws.path (ws.held k)
          (ws.held (suc k)) (λ w. suc k ≡ file_blocks f.filesize c.config.block_size → ws.saved w)
          stores p keeps q before a r v (omega (arith, id)) (rw id (to_come k l ∙ ground arith)) in
      let (g', a'', told) =
        ingest_data_block-Ingested laws parts (payload k) c (primary f) keeps a r (λ block' q'.
          let same : block' ≡ block = cc in
          omega (arith, ap (λ (x : FileBlock). x.block_id) same, id)) in
      let same : g' ≡ g = cc in
      let told' =
        subst (Ingested c.config.block_size f (ingest_data_block parts (payload k) c).0) same
          told in
      let kept = told'.filesize_kept in
      let next : (j : ℕ)
          → j < file_blocks f.filesize c.config.block_size
          → missing d g j ≡ leb (suc k) j =
        λ j m. gone j m ∙ rw (to_come j m, id) (ground arith) in
      let left' : g.blocks_remaining + suc k ≡ file_blocks f.filesize c.config.block_size =
        omega arith in
      (
        o ∙ ap ok (ground arith),
        record {
          file = g;
          active = a';
          sized = ap (λ (x : Config). x.block_size) (ingest_data_block-config parts (payload k) c);
          file_sized = kept;
          placed = (ingest_data_block-Described parts (payload k) c f g keeps a a').1 ∙ p;
          receiving = told'.receiving;
          to_come = next;
          remaining = left';
          reach = λ m. elim (told'.window (o ∙ ap ok (ground arith))) [
            | inl e ↦ absurd (omega (arith, ap (λ (x : FileContext d). x.blocks_remaining) e))
            | inr (z, n) ↦
                in_window d laws c.config.block_size (suc k) g told'.receiving
                  (λ j m'. next j (subst (λ x. j < file_blocks x c.config.block_size) kept m')) n
          ];
          held = λ m. after (λ e. omega (arith, e, left'));
          saved = λ e. closed (omega (arith, e, left')) e;
        },
      )

  -- What `arrives_here` takes, at any sizes.
  abbrev Facts : ℕ → FileContext d → ℕ → ℕ → Type 0
  Facts k f b size =
      Streams parts payload ws b size
      × IsReceiving d b f
      × ((j : ℕ) → j < file_blocks size b → missing d f j ≡ leb k j)
      × (f.blocks_remaining + k ≡ file_blocks size b)
      × (k < file_blocks size b)

  pub arrives :
      (k : ℕ) (c : SmContext d) (b size : ℕ)
      → Streams parts payload ws b size
      → Arrived ws b size k c
      → k < file_blocks size b
      → let r = ingest_data_block parts (payload k) c in
        (r.0 ≡ ok (suc k == file_blocks size b)) × Arrived ws b size (suc k) r.1
  arrives k c b size s a l =
      let f = a.file in
      let (s', r, to_come, left, l') =
        subst (λ x. Facts k f x f.filesize) (sym a.sized)
          (subst (λ y. Facts k f b y) (sym a.file_sized)
            (s, a.receiving, a.to_come, a.remaining, l)) in
      let o = ingest_data_block parts (payload k) c in
      let here = arrives_here k c f s' a.active r to_come left l' (a.reach l) a.placed (a.held l) in
      subst (λ y. (o.0 ≡ ok (suc k == file_blocks y b)) × Arrived ws b y (suc k) o.1) a.file_sized
        (subst
          (λ x.
            (o.0 ≡ ok (suc k == file_blocks f.filesize x)) × Arrived ws x f.filesize (suc k) o.1)
          a.sized here)

  all_arrive :
      (k : ℕ) (c : SmContext d) (b size : ℕ)
      → Streams parts payload ws b size
      → Arrived ws b size 0 c
      → k ≤ file_blocks size b
      → Arrived ws b size k (received parts payload k c)
  all_arrive zero c b size s a l = a
  all_arrive (suc k) c b size s a l =
      (arrives k (received parts payload k c) b size s (all_arrive k c b size s a (omega arith))
        (omega arith)).1

  -- Where the platform writes and closes and the timer stops, a service whose payload number `k` is
  -- decoded to the block `k` of the file brings the whole file: from a context that is receiving it with
  -- every block to come, each call of `ingest_data_block` succeeds. The call for the last block returns
  -- true and the others false, and after it no block is to come and the world is one in which the file
  -- is closed. The platform need write and close only in worlds in which the blocks before are stored.
  pub ingest_data_block-in_order :
      (c : SmContext d) (f : FileContext d)
      → Streams parts payload ws c.config.block_size f.filesize
      → c.active_interface ≡ some (primary f)
      → IsReceiving d c.config.block_size f
      → ((j : ℕ) → j < file_blocks f.filesize c.config.block_size → missing d f j ≡ true)
      → f.filepath ≡ ws.path
      → ws.held 0 c.world
      → let n = file_blocks f.filesize c.config.block_size in
        ((k : ℕ)
          → k < n
          → (ingest_data_block parts (payload k) (received parts payload k c)).0 ≡ ok (suc k == n))
        × ((f' : FileContext d) × ((received parts payload n c).active_interface
              ≡ some (primary f'))
            × (f'.blocks_remaining ≡ 0))
        × ws.saved (received parts payload n c).world
  ingest_data_block-in_order c f s a r all p h =
      let b = c.config.block_size in
      let n = file_blocks f.filesize b in
      let start = (begins ws b c f a refl r all p h).0 in
      let end = all_arrive n c b f.filesize s start (omega arith) in
      (
        λ k l.
            (arrives k (received parts payload k c) b f.filesize s
              (all_arrive k c b f.filesize s start (omega arith)) l).0,
        (end.file, end.active, omega (arith, end.remaining)),
        end.saved refl,
      )

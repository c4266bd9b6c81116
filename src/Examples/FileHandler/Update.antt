-- ===== src/Examples/FileHandler/Update.antt =====
-- examples/common/file_handler.rs as the platform of an update: what the calls of the handler and of
-- the other parts of a device do to the buffer and to the disk.
use rustot.Prelude.{
  ℕ, suc, ◌+◌, ◌*◌, ◌<◌, ◌≡◌, refl, ap, ◌∙◌, subst, Option, some, List, ok, arith, length, Str, [],
  ◌≤◌, ltb, Bool-cases, inl, inr,
}
use rustot.Deps.{Deps}
use rustot.Jobs.DataTypes.{JobStatus}
use rustot.Ota.Config.{Config, usize}
use rustot.Ota.Pal.{OtaEvent, PalImageState, default_activate_new_image, default_complete_callback}
use rustot.Ota.Encoding.{FileContext}
use rustot.Ota.Encoding.Json.{JobStatusReason}
use rustot.Ota.DataInterface.{FileBlock}
use rustot.Ota.DataInterface.Validate.{Fits, file_blocks, lt-file_blocks_iff}
use rustot.Ota.State.Between.{Touches, Continues}
use rustot.Ota.State.Context.{Parts}
use rustot.Ota.State.Ingest.Stores.{Stores}
use rustot.Ota.State.Ingest.Arrived.{Worlds}
use rustot.Ota.State.Starting.{Starts}
use rustot.Ota.Agent.Update.{Finishes}
use rustot.Examples.FileHandler.{
  Cursor, FileSystem, FileSystemLaws, create_file_for_rx, close_file, close_buffer, write_block,
  write_buffer, written, own, file_handler,
}
use rustot.Examples.FileHandler.Assembled.{Carries}
use rustot.Examples.FileHandler.Prefix.{Prefix, empty-Prefix, write_at-Prefix, whole-Prefix}

-- What stands on the disk. A file can be saved, and is read back.
pub record Disk (d : Deps) (fs : FileSystem d) : Type 0 where
  pub read : d.World → Str → Option (List ℕ)
  pub saves :
      (path : Str) (bytes : List ℕ) (w : d.World)
      → let r = fs.save path bytes w in (r.0 ≡ ok tt) × (read r.1 path ≡ some bytes)

module _ {d : Deps} (fs : FileSystem d) (disk : Disk d fs) where
  -- The buffer and the disk are the same in two worlds.
  abbrev pub Spares : d.World → d.World → Type 0
  Spares w w' =
      (fs.filebuf w' ≡ fs.filebuf w) × ((path : Str) → disk.read w' path ≡ disk.read w path)

  -- The other parts of a device, whose calls succeed and leave the buffer, the disk and the file alone.
  pub record Apart (parts : Parts d) : Type 0 where
    pub receiving :
        (c : Config) (f : FileContext d) (w : d.World)
        → let r =
            parts.control.update_job_status c JobStatus.in_progress JobStatusReason.receiving
              (f, w) in
          (r.0 ≡ ok tt) × Touches f r.1.0 × Spares w r.1.1
    pub received :
        (c : Config) (f : FileContext d) (w : d.World)
        → let r =
            parts.control.update_job_status c JobStatus.in_progress JobStatusReason.sig_check_passed
              (f, w) in
          (r.0 ≡ ok tt) × Spares w r.1.1
    pub begins :
        (ms : ℕ) (w : d.World)
        → let r = parts.request_timer.begin ms w in (r.0 ≡ ok tt) × Spares w r.1
    pub cancels :
        (w : d.World) → let r = parts.request_timer.cancel w in (r.0 ≡ ok tt) × Spares w r.1
    pub prepares :
        (f : FileContext d) (w : d.World)
        → let r = parts.data_primary.init_file_transfer (f, w) in
          (r.0 ≡ ok tt) × Touches f r.1.0 × Spares w r.1.1
    pub asks :
        (c : Config) (f : FileContext d) (w : d.World)
        → let r = parts.data_primary.request_file_block c (f, w) in
          (r.0 ≡ ok tt) × Touches f r.1.0 × Spares w r.1.1
    pub cleans :
        (c : Config) (f : FileContext d) (w : d.World)
        → let r = parts.data_primary.cleanup c (f, w) in (r.0 ≡ ok tt) × Spares w r.1.1
    pub decodes :
        (payload : List ℕ) (f : FileContext d) (w : d.World)
        → Spares w (parts.data_primary.decode_file_block payload (f, w)).1.1

  -- The worlds of an update of a file: the buffer holds the blocks before `k`, or the file is on the
  -- disk.
  abbrev pub worlds : List ℕ → Str → ℕ → Worlds d
  worlds image path b = record {
    path = path;
    held = λ k w. (cur : Cursor) × (fs.filebuf w ≡ some cur) × Prefix image (k * b) cur.inner;
    saved = λ w. disk.read w path ≡ some image;
  }

  -- A device with the file handler.
  abbrev pub with_handler : Parts d → Parts d
  with_handler parts = record parts { pal = file_handler fs }

  module _ (laws : FileSystemLaws d fs) (parts : Parts d) (apart : Apart parts) (image : List ℕ)
      (path : Str) (b : ℕ) where
    abbrev ws : Worlds d
    ws = worlds image path b

    pub still_held : (k : ℕ) (w w' : d.World) → Spares w w' → ws.held k w → ws.held k w'
    still_held k w w' s (cur, e, p) = (cur, s.0 ∙ e, p)

    still_saved : (w w' : d.World) → Spares w w' → ws.saved w → ws.saved w'
    still_saved w w' s e = s.1 path ∙ e

    pub handler-Continues : Continues (with_handler parts) ws
    handler-Continues = record {
      reports =
          λ c f w. let (o, t, s) = apart.receiving c f w in (o, t, λ k h. still_held k w _ s h);
      begins = λ ms w. let (o, s) = apart.begins ms w in (o, λ k h. still_held k w _ s h);
      asks = λ c f w. let (o, t, s) = apart.asks c f w in (o, t, λ k h. still_held k w _ s h);
    }

    pub handler-Finishes : Finishes (with_handler parts) ws
    unfolding file_handler own
    handler-Finishes = record {
      reports = λ c f w. let (o, s) = apart.received c f w in (o, λ h. still_saved w _ s h);
      cleans = λ c f w. let (o, s) = apart.cleans c f w in (o, λ h. still_saved w _ s h);
      leaves = λ f w. (refl, λ h. h);
    }

    pub handler-Starts : Starts (with_handler parts) ws
    unfolding file_handler own create_file_for_rx
    handler-Starts = record {
      creates = λ f w. (
        refl,
        (
          record { inner = []; position = 0 },
          laws.filebuf-set_filebuf _ w,
          subst (λ n. Prefix image n []) (omega arith) (empty-Prefix image),
        ),
      );
      settled = λ w. (PalImageState.valid, refl, (λ e. cc), λ h. h);
      prepares = λ f w. let (o, t, s) = apart.prepares f w in (o, t, λ h. still_held 0 w _ s h);
    }

    pub handler-activates :
        (w : d.World) → ((with_handler parts).pal.complete_callback OtaEvent.activate w).0 ≡ ok tt
    unfolding file_handler own default_complete_callback default_activate_new_image
    handler-activates w = refl

    -- The last block reaches the end of the file.
    reaches :
        (size k : ℕ)
        → Fits size b
        → length image ≡ size
        → suc k ≡ file_blocks size b
        → length image ≤ suc k * b
    reaches size k fits whole last = elim (Bool-cases (ltb (suc k * b) size)) [
      | inl y ↦
          let beyond = (lt-file_blocks_iff size b (suc k) fits).1 (ground arith) in
          absurd (omega (arith, beyond, last))
      | inr n ↦ ground (arith, whole)
    ]

    -- A block of the file is stored, and with the last one the file.
    pub handler-Stores :
        (size : ℕ) (block : FileBlock)
        → Fits size b
        → length image ≡ size
        → Carries image b block
        → block.block_id < file_blocks size b
        → Stores
            (with_handler parts)
            path
            (ws.held block.block_id)
            (ws.held (suc block.block_id))
            (λ w. suc block.block_id ≡ file_blocks size b → ws.saved w)
            (usize (block.block_id * b))
            block.block_payload
    unfolding file_handler own write_block write_buffer written close_file close_buffer
    handler-Stores size block fits whole carries of_file =
        let k = block.block_id in
        let inside : k * b < size = (lt-file_blocks_iff size b k fits).0 of_file in
        let place : usize (k * b) ≡ k * b = omega (arith, inside, fits.sum_fits) in
        let next : k * b + b ≡ suc k * b = grind arith in
        record {
          writes = λ f w (cur, e, p).
              let put = written (k * b) block.block_payload cur in
              (
                rw e (length block.block_payload, refl),
                (
                  put,
                  rw (e, place) (laws.filebuf-set_filebuf (some put) w),
                  subst (λ n. Prefix image n put.inner) next
                      (write_at-Prefix image b block cur.inner carries
                        (omega (arith, inside, whole)) p),
                ),
              );
          cancels = λ w h. let (o, s) = apart.cancels w in (o, still_held (suc k) w _ s h);
          closes = λ f w here (cur, e, p).
              let (o, back) = disk.saves f.filepath cur.inner w in
              (
                rw (e, o) refl,
                λ last.
                    rw e (
                      subst (λ q. disk.read (fs.save f.filepath cur.inner w).1 q ≡ some cur.inner)
                        here back)
                    ∙ ap some (
                        whole-Prefix image (suc k * b) cur.inner p
                          (reaches size k fits whole last)),
              );
        }

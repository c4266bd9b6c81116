-- ===== src/Ota/State/Ingest/Begin.antt =====
-- `FileContext::new_from` of src/ota/encoding/mod.rs, at the beginning of a file.
use rustot.Prelude.{ℕ, ◌-◌, ◌<◌, min, ◌≡◌, sym, ◌∙◌, true, Option, some, ok, arith, get_elem?, Str}
use rustot.Deps.{Deps, BitsLaws}
use rustot.Deps.Count.{count_below-all}
use rustot.Ota.Error.{OtaError}
use rustot.Ota.Config.{Config, usize_sub}
use rustot.Ota.Version.{Version}
use rustot.Ota.Encoding.Json.{FileDescription, OtaJob}
use rustot.Ota.Encoding.{FileContext, total_blocks, new_bitmap, new_from}
use rustot.Ota.DataInterface.Validate.{
  Fits, file_blocks, file_blocks-lt, total_blocks-Fits, lt-file_blocks_iff,
}
use rustot.Ota.State.Ingest.Window.{missing, IsReceiving}

-- What the fields of a new context are.
new_from_fields :
    (d : Deps) (name : Str) (job : OtaJob) (details : Option d.Map) (idx : ℕ) (config : Config)
    (v : Version) (file : FileDescription) (f : FileContext d)
    → get_elem? job.files idx ≡ some file
    → new_from d name job details idx config v ≡ ok f
    → (f.filesize ≡ file.filesize)
      × (f.block_offset ≡ 0)
      × (new_bitmap {E = OtaError} d file.filesize config.block_size 0 ≡ ok f.bitmap)
      × (total_blocks {E = OtaError} file.filesize config.block_size ≡ ok f.blocks_remaining)
unfolding new_from
new_from_fields d name job details idx config v file f g h = ground arith

module _ (d : Deps) (laws : BitsLaws d) (config : Config) (f : FileContext d)
    (fits : Fits f.filesize config.block_size) (offset : f.block_offset ≡ 0)
    (bits : f.bitmap ≡ d.mask (min 31 (file_blocks f.filesize config.block_size)))
    (remaining : f.blocks_remaining ≡ file_blocks f.filesize config.block_size) where
  begin_missing : (j : ℕ) → j < file_blocks f.filesize config.block_size → missing d f j ≡ true
  begin_missing j l = rw bits (
      ground (
        arith,
        laws.bit-mask (min 31 (file_blocks f.filesize config.block_size)) (j - f.block_offset),
      ))

  begin-IsReceiving : IsReceiving d config.block_size f
  begin-IsReceiving = record {
    fits = fits;
    in_file =
        rw offset (
          (lt-file_blocks_iff f.filesize config.block_size 0 fits).1
            (omega (arith, fits.file_pos)));
    counted = remaining ∙ sym (count_below-all _ (missing d f) begin_missing);
    clear = λ i l m.
        rw bits
          (ground (arith, laws.bit-mask (min 31 (file_blocks f.filesize config.block_size)) i));
  }

new_bitmap-Fits :
    (d : Deps) (filesize block_size : ℕ)
    → Fits filesize block_size
    → new_bitmap {E = OtaError} d filesize block_size 0
      ≡ ok (d.mask (min 31 (file_blocks filesize block_size)))
unfolding new_bitmap
new_bitmap-Fits d filesize block_size h =
    let small = file_blocks-lt filesize block_size h in
    let size : usize_sub (file_blocks filesize block_size) 0 ≡ file_blocks filesize block_size =
      omega arith in
    rw (total_blocks-Fits filesize block_size h) (rw size)

-- Where the sizes fit and the document has the file, a context that `new_from` makes is that of a file
-- that is being received, with the size of the document's file and every block to come.
pub new_from-IsReceiving :
    (d : Deps) (laws : BitsLaws d) (name : Str) (job : OtaJob) (details : Option d.Map) (idx : ℕ)
    (config : Config) (v : Version) (file : FileDescription) (f : FileContext d)
    → get_elem? job.files idx ≡ some file
    → Fits file.filesize config.block_size
    → new_from d name job details idx config v ≡ ok f
    → (f.filesize ≡ file.filesize)
      × IsReceiving d config.block_size f
      × ((j : ℕ) → j < file_blocks f.filesize config.block_size → missing d f j ≡ true)
new_from-IsReceiving d laws name job details idx config v file f g fits h =
    let (size, offset, bits, remaining) =
      new_from_fields d name job details idx config v file f g h in
    let fits' : Fits f.filesize config.block_size = rw size fits in
    let bits' : f.bitmap ≡ d.mask (min 31 (file_blocks f.filesize config.block_size)) =
      rw size (cc (new_bitmap-Fits d file.filesize config.block_size fits)) in
    let remaining' : f.blocks_remaining ≡ file_blocks f.filesize config.block_size =
      rw size (cc (total_blocks-Fits file.filesize config.block_size fits)) in
    (
      size,
      begin-IsReceiving d laws config f fits' offset bits' remaining',
      begin_missing d laws config f fits' offset bits' remaining',
    )

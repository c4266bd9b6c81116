-- ===== src/Ota/State/Ingest/Window.antt =====
-- The window of `ingest_data_block` (src/ota/state.rs) seen as the set of blocks that are still to come:
-- the 31 bits, the offset and the counter of the file context.
use rustot.Prelude.{
  ℕ, suc, ◌+◌, ◌-◌, ◌≤◌, ◌<◌, min, ◌≡◌, ◌≢◌, refl, sym, ◌∙◌, inl, inr, Bool, true, false, not, ◌&&◌,
  ◌||◌, ok, arith, ltb, leb, ◌==◌, if◌then◌else◌, Bool-cases, ==_iff, subst,
}
use rustot.Deps.{Deps, BitsLaws, count_below}
use rustot.Deps.Count.{
  count_below-cong, count_below-remove, count_below-zero, count_below-none, count_below-le,
}
use rustot.Ota.Config.{Config, usize_sub, u32}
use rustot.Ota.Encoding.{FileContext, new_bitmap}
use rustot.Ota.DataInterface.{FileBlock}
use rustot.Ota.DataInterface.Validate.{Fits, file_blocks, file_blocks-lt, total_blocks-Fits}
use rustot.Ota.State.Ingest.{is_duplicate, mark_received, move_window, next_window}

module _ (d : Deps) where
  -- Whether a block of the file is still to come.
  abbrev pub missing : FileContext d → ℕ → Bool
  missing f id =
      leb f.block_offset id
      && (leb 31 (id - f.block_offset) || d.bit f.bitmap (id - f.block_offset))

  -- The context of a file that is being received.
  pub record IsReceiving (block_size : ℕ) (f : FileContext d) : Type 0 where
    pub fits : Fits f.filesize block_size
    pub in_file : f.block_offset < file_blocks f.filesize block_size
    pub counted : f.blocks_remaining ≡ count_below (file_blocks f.filesize block_size) (missing f)
    pub clear :
        (i : ℕ)
        → i < 32
        → min 31 (file_blocks f.filesize block_size - f.block_offset) ≤ i
        → d.bit f.bitmap i ≡ false

-- The block that comes is one of the file, within reach of the bitmap, and not a duplicate.
module _ (d : Deps) (laws : BitsLaws d) (block_size : ℕ) (f : FileContext d) (block : FileBlock)
    (r : IsReceiving d block_size f) (of_file : block.block_id < file_blocks f.filesize block_size)
    (reach : block.block_id < f.block_offset + 32) (new : is_duplicate block f ≡ false) where
  index : usize_sub block.block_id f.block_offset ≡ block.block_id - f.block_offset
  unfolding is_duplicate
  index = ground (arith, file_blocks-lt f.filesize block_size r.fits, r.in_file)

  pub new_bit :
      (f.block_offset ≤ block.block_id)
      × (block.block_id - f.block_offset < 31)
      × (d.bit f.bitmap (block.block_id - f.block_offset) ≡ true)
  unfolding is_duplicate
  new_bit = ground (arith, index, r.clear (block.block_id - f.block_offset))

  pub missing-new : missing d f block.block_id ≡ true
  missing-new = ground (arith, new_bit)

  pub missing-mark_received :
      (j : ℕ) → missing d (mark_received block f) j ≡ (missing d f j && not (j == block.block_id))
  unfolding mark_received
  missing-mark_received j = ground (
    arith,
    index,
    new_bit,
    laws.bit-set_bit f.bitmap (block.block_id - f.block_offset) (j - f.block_offset) false,
  )

  count-mark_received :
      count_below (file_blocks f.filesize block_size) (missing d f)
      ≡ suc (count_below (file_blocks f.filesize block_size) (missing d (mark_received block f)))
  count-mark_received =
      count_below-remove _ block.block_id (missing d f) (missing d (mark_received block f)) of_file
        missing-new (rw (missing-mark_received block.block_id) (ground arith))
        (λ j l ne. rw (missing-mark_received j) (ground arith))

  pub mark_received-remaining : f.blocks_remaining ≡ suc (mark_received block f).blocks_remaining
  unfolding mark_received
  mark_received-remaining = omega (
    arith,
    r.counted,
    count-mark_received,
    file_blocks-lt f.filesize block_size r.fits,
    count_below-le (file_blocks f.filesize block_size) (missing d f),
  )

  pub mark_received-IsReceiving : IsReceiving d block_size (mark_received block f)
  unfolding mark_received
  mark_received-IsReceiving = record {
    fits = r.fits;
    in_file = r.in_file;
    counted = omega (arith, r.counted, count-mark_received, mark_received-remaining);
    clear = λ i l m. ground (
      arith,
      index,
      new_bit,
      r.clear i,
      laws.bit-set_bit f.bitmap (block.block_id - f.block_offset) i false,
    );
  }

-- Some block is still to come after the last one was marked.
module _ (d : Deps) (laws : BitsLaws d) (config : Config) (f : FileContext d)
    (r : IsReceiving d config.block_size f) (more : f.blocks_remaining ≢ 0) where
  blocks : ℕ
  blocks = file_blocks f.filesize config.block_size

  -- The context with the window moved on.
  moved : FileContext d
  unfolding blocks
  moved = record f {
    block_offset = f.block_offset + 31;
    bitmap = d.mask (min 31 (blocks - (f.block_offset + 31)));
  }

  empty_bit : d.is_empty f.bitmap ≡ true → (i : ℕ) → i < 32 → d.bit f.bitmap i ≡ false
  empty_bit e i l =
      count_below-zero 32 (d.bit f.bitmap) i
        ((==_iff (count_below 32 (d.bit f.bitmap)) 0).0 (sym (laws.is_empty_lem f.bitmap) ∙ e)) l

  missing_beyond :
      d.is_empty f.bitmap ≡ true → (j : ℕ) → missing d f j ≡ leb (f.block_offset + 31) j
  missing_beyond e j = ground (arith, empty_bit e (j - f.block_offset))

  room : d.is_empty f.bitmap ≡ true → f.block_offset + 31 < blocks
  unfolding blocks
  room e = elim (Bool-cases (ltb (f.block_offset + 31) blocks)) [
    | inl yes_room ↦ ground arith
    | inr full ↦ absurd (
        more (
          r.counted
          ∙ count_below-none blocks (missing d f) (λ j l. rw (missing_beyond e j) (ground arith))))
  ]

  move_window_lem :
      d.is_empty f.bitmap ≡ true → move_window d config (u32 (f.block_offset + 31)) f ≡ ok moved
  unfolding move_window new_bitmap moved
  move_window_lem e =
      let small = file_blocks-lt f.filesize config.block_size r.fits in
      let offset : u32 (f.block_offset + 31) ≡ f.block_offset + 31 = omega (arith, room e, small) in
      let size : usize_sub blocks (f.block_offset + 31) ≡ blocks - (f.block_offset + 31) =
        omega (arith, room e, small) in
      rw (offset, total_blocks-Fits f.filesize config.block_size r.fits) (rw size)

  next_window_lem : next_window config f ≡ ok (if d.is_empty f.bitmap then moved else f)
  unfolding next_window
  next_window_lem = elim (Bool-cases (d.is_empty f.bitmap)) [
    | inl e ↦ rw e (move_window_lem e)
    | inr e ↦ rw e refl
  ]

  missing-moved :
      d.is_empty f.bitmap ≡ true → (j : ℕ) → j < blocks → missing d moved j ≡ missing d f j
  unfolding moved
  missing-moved e j l = rw (missing_beyond e j) (
      ground (
        arith,
        room e,
        laws.bit-mask (min 31 (blocks - (f.block_offset + 31))) (j - (f.block_offset + 31)),
      ))

  moved-IsReceiving : d.is_empty f.bitmap ≡ true → IsReceiving d config.block_size moved
  unfolding moved
  moved-IsReceiving e = record {
    fits = r.fits;
    in_file = room e;
    counted =
        r.counted
        ∙ count_below-cong blocks (missing d f) (missing d moved)
            (λ j l. sym (missing-moved e j l));
    clear = λ i l m. ground (arith, laws.bit-mask (min 31 (blocks - (f.block_offset + 31))) i);
  }

  -- A window with a bit set is not empty.
  nonempty : (b : d.Bits) (i : ℕ) → i < 32 → d.bit b i ≡ true → d.is_empty b ≡ false
  nonempty b i l e = elim (Bool-cases (d.is_empty b)) [
    | inl z ↦
        let none_set : d.bit b i ≡ false =
          count_below-zero 32 (d.bit b) i
            ((==_iff (count_below 32 (d.bit b)) 0).0 (sym (laws.is_empty_lem b) ∙ z)) l in
        cc
    | inr z ↦ z
  ]

  moved_nonempty : d.is_empty f.bitmap ≡ true → d.is_empty moved.bitmap ≡ false
  unfolding moved
  moved_nonempty e =
      nonempty (d.mask (min 31 (blocks - (f.block_offset + 31)))) 0 (omega arith)
        (ground (arith, room e, laws.bit-mask (min 31 (blocks - (f.block_offset + 31))) 0))

  -- What moving on leaves: the same blocks to come, in a window that is not empty.
  pub record MovesOn (f' : FileContext d) : Type 0 where
    pub receiving : IsReceiving d config.block_size f'
    pub filesize_kept : f'.filesize ≡ f.filesize
    pub remaining_kept : f'.blocks_remaining ≡ f.blocks_remaining
    pub nonempty_window : d.is_empty f'.bitmap ≡ false
    pub same :
        (j : ℕ) → j < file_blocks f.filesize config.block_size → missing d f' j ≡ missing d f j

  pub next_window-MovesOn : (f' : FileContext d) → next_window config f ≡ ok f' → MovesOn f'
  unfolding moved blocks
  next_window-MovesOn f' h = elim (Bool-cases (d.is_empty f.bitmap)) [
    | inl e ↦
        let g : moved ≡ f' = cc (next_window_lem, e, h) in
        subst MovesOn g (record {
          receiving = moved-IsReceiving e;
          filesize_kept = refl;
          remaining_kept = refl;
          nonempty_window = moved_nonempty e;
          same = missing-moved e;
        })
    | inr e ↦
        let g : f ≡ f' = cc (next_window_lem, e, h) in
        subst MovesOn g (record {
          receiving = r;
          filesize_kept = refl;
          remaining_kept = refl;
          nonempty_window = e;
          same = λ j l. refl;
        })
  ]

  -- The window can always be moved on.
  pub next_window_total : (f' : FileContext d) × (next_window config f ≡ ok f')
  next_window_total = (if d.is_empty f.bitmap then moved else f, next_window_lem)

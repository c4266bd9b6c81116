-- ===== src/Examples/FileHandler/Prefix.antt =====
-- examples/common/file_handler.rs: a buffer that holds the first bytes of a file.
use rustot.Prelude.{
  ℕ, ◌+◌, ◌*◌, ◌-◌, ◌≤◌, ◌<◌, ◌≡◌, refl, sym, ◌∙◌, inl, inr, List, [], arith, length, get_elem?,
  ltb, Bool-cases, subst,
}
use rustot.Ota.DataInterface.{FileBlock}
use rustot.Examples.FileHandler.{write_at}
use rustot.Examples.FileHandler.Bytes.{
  get_elem?-lt, eq_of_get_elem?, write_at-outside, length-write_at,
}
use rustot.Examples.FileHandler.Assembled.{Carries, carried, byte_inside}

-- The bytes before place `n` stand in the buffer.
pub record Prefix (image : List ℕ) (n : ℕ) (buf : List ℕ) : Type 0 where
  pub short : length buf ≤ length image
  pub right : (i : ℕ) → i < n → i < length image → get_elem? buf i ≡ get_elem? image i

pub empty-Prefix : (image : List ℕ) → Prefix image 0 []
empty-Prefix image = record { short = omega arith; right = λ i l m. absurd (omega arith) }

pub write_at-Prefix :
    (image : List ℕ) (b : ℕ) (block : FileBlock) (buf : List ℕ)
    → Carries image b block
    → block.block_id * b < length image
    → Prefix image (block.block_id * b) buf
    → Prefix image (block.block_id * b + b) (write_at (block.block_id * b) block.block_payload buf)
write_at-Prefix image b block buf c of_file p =
    let start = block.block_id * b in
    record {
      short =
          length-write_at start (length image) block.block_payload buf p.short
            (carried image b block buf c of_file (length block.block_payload) refl);
      right = λ i l m. elim (Bool-cases (ltb i start)) [
        | inl before ↦
            let small : i < start = ground arith in
            let (x, e) = get_elem?-lt image i m in
            write_at-outside start block.block_payload buf i x (p.right i small m ∙ e) (inl small)
            ∙ sym e
        | inr after ↦
            let large : start ≤ i = ground arith in
            let same : start + (i - start) ≡ i = omega arith in
            subst (λ j. get_elem? (write_at start block.block_payload buf) j ≡ get_elem? image j)
              same
              (byte_inside image b block buf c of_file (i - start) (omega arith)
                (omega (arith, same, m)))
      ];
    }

pub whole-Prefix :
    (image : List ℕ) (n : ℕ) (buf : List ℕ) → Prefix image n buf → length image ≤ n → buf ≡ image
whole-Prefix image n buf p l = eq_of_get_elem? buf image p.short λ i m. p.right i (omega arith) m

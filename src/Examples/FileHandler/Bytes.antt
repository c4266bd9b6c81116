-- ===== src/Examples/FileHandler/Bytes.antt =====
-- examples/common/file_handler.rs: what stands in the buffer after a write.
use rustot.Prelude.{
  ℕ, zero, suc, ◌+◌, ◌≤◌, ◌<◌, ◌≡◌, refl, ◌⊎◌, inr, some, List, [], ◌∷◌, arith, length, get_elem?,
}
use rustot.Examples.FileHandler.{write_at}

-- A read inside a list.
pub get_elem?-lt : (xs : List ℕ) (i : ℕ) → i < length xs → (x : ℕ) × (get_elem? xs i ≡ some x)
get_elem?-lt [] i h = absurd (omega arith)
get_elem?-lt (x ∷ xs) zero h = (x, refl)
get_elem?-lt (x ∷ xs) (suc i) h = get_elem?-lt xs i (omega arith)

pub lt-get_elem? : (xs : List ℕ) (i x : ℕ) → get_elem? xs i ≡ some x → i < length xs
lt-get_elem? [] i x h = cc
lt-get_elem? (y ∷ xs) zero x h = omega arith
lt-get_elem? (y ∷ xs) (suc i) x h = omega (arith, lt-get_elem? xs i x h)

-- Lists that agree at every place of the longer one are equal.
pub eq_of_get_elem? :
    (xs ys : List ℕ)
    → length xs ≤ length ys
    → ((i : ℕ) → i < length ys → get_elem? xs i ≡ get_elem? ys i)
    → xs ≡ ys
eq_of_get_elem? [] [] l h = refl
eq_of_get_elem? [] (y ∷ ys) l h = absurd (ground (arith, h 0 (omega arith)))
eq_of_get_elem? (x ∷ xs) [] l h = absurd (omega arith)
eq_of_get_elem? (x ∷ xs) (y ∷ ys) l h =
    ground (
      arith,
      h 0 (omega arith),
      eq_of_get_elem? xs ys (omega arith) (λ i m. h (suc i) (omega arith)),
    )

pub write_at-inside :
    (n : ℕ) (bytes buf : List ℕ) (j : ℕ)
    → j < length bytes
    → get_elem? (write_at n bytes buf) (n + j) ≡ get_elem? bytes j
unfolding write_at
write_at-inside (suc n) bytes [] j h = ground (arith, write_at-inside n bytes [] j h)
write_at-inside (suc n) bytes (x ∷ buf) j h = ground (arith, write_at-inside n bytes buf j h)
write_at-inside zero [] buf j h = absurd (omega arith)
write_at-inside zero (b ∷ bytes) [] zero h = refl
write_at-inside zero (b ∷ bytes) [] (suc j) h =
    ground (arith, write_at-inside zero bytes [] j (omega arith))
write_at-inside zero (b ∷ bytes) (x ∷ buf) zero h = refl
write_at-inside zero (b ∷ bytes) (x ∷ buf) (suc j) h =
    ground (arith, write_at-inside zero bytes buf j (omega arith))

-- A byte that was there before is kept outside the bytes that are written.
pub write_at-outside :
    (n : ℕ) (bytes buf : List ℕ) (i x : ℕ)
    → get_elem? buf i ≡ some x
    → (i < n) ⊎ (n + length bytes ≤ i)
    → get_elem? (write_at n bytes buf) i ≡ some x
unfolding write_at
write_at-outside (suc n) bytes [] i x e o = absurd (cc)
write_at-outside (suc n) bytes (y ∷ buf) zero x e o = e
write_at-outside (suc n) bytes (y ∷ buf) (suc i) x e o =
    write_at-outside n bytes buf i x e (ground arith)
write_at-outside zero [] buf i x e o = e
write_at-outside zero (b ∷ bytes) [] i x e o = absurd (cc)
write_at-outside zero (b ∷ bytes) (y ∷ buf) zero x e o = absurd (ground arith)
write_at-outside zero (b ∷ bytes) (y ∷ buf) (suc i) x e o =
    write_at-outside zero bytes buf i x e (inr (ground arith))

pub length-write_at :
    (n m : ℕ) (bytes buf : List ℕ)
    → length buf ≤ m
    → n + length bytes ≤ m
    → length (write_at n bytes buf) ≤ m
unfolding write_at
length-write_at (suc n) zero bytes [] l k = absurd (omega arith)
length-write_at (suc n) (suc m) bytes [] l k =
    omega (arith, length-write_at n m bytes [] (omega arith) (omega arith))
length-write_at (suc n) zero bytes (x ∷ buf) l k = absurd (omega arith)
length-write_at (suc n) (suc m) bytes (x ∷ buf) l k =
    omega (arith, length-write_at n m bytes buf (omega arith) (omega arith))
length-write_at zero m [] buf l k = l
length-write_at zero zero (b ∷ bytes) [] l k = absurd (omega arith)
length-write_at zero (suc m) (b ∷ bytes) [] l k =
    omega (arith, length-write_at zero m bytes [] (omega arith) (omega arith))
length-write_at zero zero (b ∷ bytes) (x ∷ buf) l k = absurd (omega arith)
length-write_at zero (suc m) (b ∷ bytes) (x ∷ buf) l k =
    omega (arith, length-write_at zero m bytes buf (omega arith) (omega arith))

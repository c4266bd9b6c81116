-- ===== src/Deps.antt =====
-- The crates that the program builds on and whose code is not here: `bitmaps`, `heapless` and
-- whatever the calls on traits reach. `Deps` gives the types and operations that the program uses,
-- `Laws` what their documentation says of them. The models take a `Deps` as an argument.
pub mod Reference
pub mod Count
use rustot.Prelude.{
  ℕ, zero, suc, ◌+◌, ◌<◌, ◌≤◌, ◌≡◌, ◌↔◌, Bool, true, false, Option, none, some, List, [], ◌∷◌, ◌++◌,
  ltb, leb, ◌==◌, if◌then◌else◌, length, Str, str_eq,
}

pub record Deps : Type 1 where
  -- What the implementations of the traits can see and change: device, timers, network.
  pub World : Type 0
  -- `bitmaps::Bitmap<32>`: `mask`, `get`, `set`, `len`, `is_empty`, `into_value`.
  pub Bits : Type 0
  pub mask : ℕ → Bits
  pub bit : Bits → ℕ → Bool
  pub set_bit : Bits → ℕ → Bool → Bits
  pub ones : Bits → ℕ
  pub is_empty : Bits → Bool
  pub into_value : Bits → ℕ
  -- `heapless::FnvIndexMap<String<15>, String<11>, 4>`: `new`, `insert`, `get`.
  pub Map : Type 0
  pub new_map : Map
  pub insert : Str → Str → Map → Option Map
  pub lookup : Map → Str → Option Str
  -- `heapless::String<N>`: whether a text fits the capacity.
  pub fits : ℕ → Str → Bool
  -- `heapless::spsc::Queue<T, N>`: `new`, `enqueue`, `dequeue`, `iter`.
  pub Queue : ℕ → Type 0 → Type 0
  pub new_queue : (n : ℕ) (A : Type 0) → Queue n A
  pub enqueue : (n : ℕ) (A : Type 0) → A → Queue n A → Option (Queue n A)
  pub dequeue : (n : ℕ) (A : Type 0) → Queue n A → Option (A × Queue n A)
  pub items : (n : ℕ) (A : Type 0) → Queue n A → List A

-- How many of the first `n` numbers pass the test.
abbrev pub count_below : ℕ → (ℕ → Bool) → ℕ
count_below zero p = 0
count_below (suc n) p = (if p n then 1 else 0) + count_below n p

-- The bits with an index below the size behave as a set of numbers below 32. Nothing is said of an
-- index out of range.
pub record BitsLaws (d : Deps) : Type 0 where
  pub bit-mask : (n i : ℕ) → n ≤ 32 → i < 32 → d.bit (d.mask n) i ≡ ltb i n
  pub bit-set_bit :
      (b : d.Bits) (i j : ℕ) (v : Bool)
      → i < 32
      → j < 32
      → d.bit (d.set_bit b i v) j ≡ (if i == j then v else d.bit b j)
  pub ones_lem : (b : d.Bits) → d.ones b ≡ count_below 32 (d.bit b)
  pub is_empty_lem : (b : d.Bits) → d.is_empty b ≡ (count_below 32 (d.bit b) == 0)

-- An index map of capacity 4, and the capacity of a text.
pub record MapLaws (d : Deps) : Type 0 where
  pub lookup-new_map : (k : Str) → d.lookup d.new_map k ≡ none
  pub lookup-insert :
      (m n : d.Map) (k j v : Str)
      → d.insert k v m ≡ some n
      → d.lookup n j ≡ (if str_eq k j then some v else d.lookup m j)
  pub insert_present :
      (m : d.Map) (k v w : Str) → d.lookup m k ≡ some w → (n : d.Map) × (d.insert k v m ≡ some n)
  pub fits_lem : (n : ℕ) (s : Str) → d.fits n s ≡ leb (length s) n

-- A queue declared with `N` holds `N - 1` items, first in first out.
pub record QueueLaws (d : Deps) : Type 1 where
  pub items-new : (n : ℕ) (A : Type 0) → d.items n A (d.new_queue n A) ≡ []
  pub enqueue_room :
      (n : ℕ) (A : Type 0) (a : A) (q : d.Queue n A)
      → suc (length (d.items n A q)) < n
      → (r : d.Queue n A) × (d.enqueue n A a q ≡ some r) × (d.items n A r ≡ d.items n A q ++ a ∷ [])
  pub enqueue_full :
      (n : ℕ) (A : Type 0) (a : A) (q : d.Queue n A)
      → n ≤ suc (length (d.items n A q))
      → d.enqueue n A a q ≡ none
  pub dequeue_empty :
      (n : ℕ) (A : Type 0) (q : d.Queue n A) → d.items n A q ≡ [] → d.dequeue n A q ≡ none
  pub dequeue_first :
      (n : ℕ) (A : Type 0) (q : d.Queue n A) (a : A) (rest : List A)
      → d.items n A q ≡ a ∷ rest
      → (r : d.Queue n A) × (d.dequeue n A q ≡ some (a, r)) × (d.items n A r ≡ rest)

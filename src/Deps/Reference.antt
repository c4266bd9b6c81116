-- ===== src/Deps/Reference.antt =====
-- Simple data structures that behave as the crates' documentation says, to run the models on: bits as
-- a function, a map as an association list, a queue as a list. The world is whatever a test needs.
use rustot.Prelude.{
  ℕ, zero, suc, ◌+◌, ◌^◌, ◌≤◌, ◌<◌, ◌≡◌, refl, inl, inr, Bool, Option, none, some, List, [], ◌∷◌,
  ◌++◌, arith, ltb, leb, ◌==◌, if◌then◌else◌, length, Str, str_eq, str_eq_iff, Bool-cases,
  Option-cases,
}
use rustot.Deps.{Deps, BitsLaws, MapLaws, QueueLaws, count_below}

-- A map holds four entries at most: what stands behind them is no part of it.
unfoldable pub lookup_in : ℕ → List (Str × Str) → Str → Option Str
lookup_in n [] j = none
lookup_in zero (e ∷ m) j = none
lookup_in (suc n) ((k, v) ∷ m) j = if str_eq k j then some v else lookup_in n m j

cons_to : {A : Type 0} → A → Option (List A) → Option (List A)
cons_to a none = none
cons_to a (some m) = some (a ∷ m)

-- `none` where the key is new and there is no room for it.
unfoldable pub insert_in : ℕ → Str → Str → List (Str × Str) → Option (List (Str × Str))
unfolding cons_to
insert_in zero k v m = none
insert_in (suc n) k v [] = some ((k, v) ∷ [])
insert_in (suc n) k v ((j, w) ∷ m) =
    if str_eq j k then some ((k, v) ∷ m) else cons_to (j, w) (insert_in n k v m)

unfoldable pub push : {A : Type 0} → ℕ → A → List A → Option (List A)
push n a q = if ltb (suc (length q)) n then some (q ++ a ∷ []) else none

unfoldable pub pop : {A : Type 0} → List A → Option (A × List A)
pop [] = none
pop (a ∷ q) = some (a, q)

unfoldable pub value_below : ℕ → (ℕ → Bool) → ℕ
value_below zero p = 0
value_below (suc n) p = (if p n then 2 ^ n else 0) + value_below n p

abbrev pub reference : Type 0 → Deps
reference W = record {
  World = W;
  Bits = ℕ → Bool;
  mask = λ n i. ltb i n;
  bit = λ b i. b i;
  set_bit = λ b i v j. if i == j then v else b j;
  ones = λ b. count_below 32 b;
  is_empty = λ b. count_below 32 b == 0;
  into_value = λ b. value_below 32 b;
  Map = List (Str × Str);
  new_map = [];
  insert = λ k v m. insert_in 4 k v m;
  lookup = λ m k. lookup_in 4 m k;
  fits = λ n s. leb (length s) n;
  Queue = λ n A. List A;
  new_queue = λ n A. [];
  enqueue = λ n A a q. push n a q;
  dequeue = λ n A q. pop q;
  items = λ n A q. q;
}

pub reference-BitsLaws : (W : Type 0) → BitsLaws (reference W)
reference-BitsLaws W = record {
  bit-mask = λ n i h k. refl;
  bit-set_bit = λ b i j v h k. refl;
  ones_lem = λ b. refl;
  is_empty_lem = λ b. refl;
}

push_room :
    {A : Type 0} (n : ℕ) (a : A) (q : List A)
    → suc (length q) < n
    → (r : List A) × (push n a q ≡ some r) × (r ≡ q ++ a ∷ [])
unfolding push
push_room n a q h = (q ++ a ∷ [], ground arith, refl)

push_full : {A : Type 0} (n : ℕ) (a : A) (q : List A) → n ≤ suc (length q) → push n a q ≡ none
unfolding push
push_full n a q h = ground arith

pop_empty : {A : Type 0} (q : List A) → q ≡ [] → pop q ≡ none
unfolding pop
pop_empty q h = ground arith

pop_first :
    {A : Type 0} (q : List A) (a : A) (rest : List A)
    → q ≡ a ∷ rest
    → (r : List A) × (pop q ≡ some (a, r)) × (r ≡ rest)
unfolding pop
pop_first q a rest h = (rest, ground arith, refl)

pub reference-QueueLaws : (W : Type 0) → QueueLaws (reference W)
reference-QueueLaws W = record {
  items-new = λ n A. refl;
  enqueue_room = λ n A a q h. push_room n a q h;
  enqueue_full = λ n A a q h. push_full n a q h;
  dequeue_empty = λ n A q h. pop_empty q h;
  dequeue_first = λ n A q a rest h. pop_first q a rest h;
}

lookup-insert_in :
    (c : ℕ) (m n : List (Str × Str)) (k j v : Str)
    → insert_in c k v m ≡ some n
    → lookup_in c n j ≡ (if str_eq k j then some v else lookup_in c m j)
unfolding insert_in lookup_in
lookup-insert_in zero m n k j v h = cc
lookup-insert_in (suc c) [] n k j v h = ground arith
lookup-insert_in (suc c) ((i, w) ∷ m) n k j v h = elim (Bool-cases (str_eq i k)) [
  | inl same ↦
      let e : i ≡ k = (str_eq_iff i k).0 same in
      let f : n ≡ (k, v) ∷ m = ground arith in ground arith
  | inr other ↦ elim (Option-cases (insert_in c k v m)) [
    | inl full ↦ ground arith
    | inr (r, e) ↦
        let f : n ≡ (i, w) ∷ r = ground arith in
        rw f (
          ground
            (arith, lookup-insert_in c m r k j v e, str_eq_iff i k, str_eq_iff k j, str_eq_iff i j))
  ]
]

insert_in_present :
    (c : ℕ) (m : List (Str × Str)) (k v w : Str)
    → lookup_in c m k ≡ some w
    → (n : List (Str × Str)) × (insert_in c k v m ≡ some n)
unfolding insert_in lookup_in
insert_in_present zero [] k v w e = cc
insert_in_present zero (x ∷ m) k v w e = cc
insert_in_present (suc c) [] k v w e = cc
insert_in_present (suc c) ((i, u) ∷ m) k v w e = elim (Bool-cases (str_eq i k)) [
  | inl same ↦ ((k, v) ∷ m, ground arith)
  | inr other ↦
      let r = insert_in_present c m k v w (ground arith) in ((i, u) ∷ r.0, ground (arith, r.1))
]

pub reference-MapLaws : (W : Type 0) → MapLaws (reference W)
unfolding lookup_in
reference-MapLaws W = record {
  lookup-new_map = λ k. refl;
  lookup-insert = λ m n k j v h. lookup-insert_in 4 m n k j v h;
  insert_present = λ m k v w h. insert_in_present 4 m k v w h;
  fits_lem = λ n s. refl;
}

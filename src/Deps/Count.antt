-- ===== src/Deps/Count.antt =====
-- How many numbers below a bound pass a test.
use rustot.Prelude.{ℕ, zero, suc, ◌≤◌, ◌<◌, ◌≡◌, ◌≢◌, refl, Bool, true, false, arith}
use native.Mathlib.Decide.{ℕ_discrete}
use rustot.Deps.{count_below}

pub count_below-cong :
    (n : ℕ) (p q : ℕ → Bool) → ((i : ℕ) → i < n → p i ≡ q i) → count_below n p ≡ count_below n q
count_below-cong zero p q h = refl
count_below-cong (suc n) p q h =
    ground (arith, h n, count_below-cong n p q (λ i l. h i (omega arith)))

pub count_below-remove :
    (n k : ℕ) (p q : ℕ → Bool)
    → k < n
    → p k ≡ true
    → q k ≡ false
    → ((i : ℕ) → i < n → i ≢ k → p i ≡ q i)
    → count_below n p ≡ suc (count_below n q)
count_below-remove zero k p q l a b h = elim l [ ]
count_below-remove (suc n) k p q l a b h = elim (ℕ_discrete k n) [
  | yes e ↦
      let same = count_below-cong n p q (λ i m. h i (omega arith) (λ z. omega arith)) in
      let a' : p n ≡ true = rw (← e) a in let b' : q n ≡ false = rw (← e) b in ground (arith, same)
  | no ne ↦
      let fewer = count_below-remove n k p q (omega arith) a b (λ i m z. h i (omega arith) z) in
      let top : p n ≡ q n = h n (omega arith) (λ z. ne (omega arith)) in ground (arith, fewer)
]

pub count_below-all : (n : ℕ) (p : ℕ → Bool) → ((i : ℕ) → i < n → p i ≡ true) → count_below n p ≡ n
count_below-all zero p h = refl
count_below-all (suc n) p h = ground (arith, h n, count_below-all n p (λ i l. h i (omega arith)))

pub count_below-zero : (n : ℕ) (p : ℕ → Bool) (i : ℕ) → count_below n p ≡ 0 → i < n → p i ≡ false
count_below-zero zero p i e l = elim l [ ]
count_below-zero (suc n) p i e l = elim (ℕ_discrete i n) [
  | yes same ↦ rw same (ground arith)
  | no other ↦ count_below-zero n p i (ground arith) (omega arith)
]

pub count_below-none :
    (n : ℕ) (p : ℕ → Bool) → ((i : ℕ) → i < n → p i ≡ false) → count_below n p ≡ 0
count_below-none zero p h = refl
count_below-none (suc n) p h = ground (arith, h n, count_below-none n p (λ i l. h i (omega arith)))

pub count_below-le : (n : ℕ) (p : ℕ → Bool) → count_below n p ≤ n
count_below-le zero p = omega arith
count_below-le (suc n) p = ground (arith, count_below-le n p)

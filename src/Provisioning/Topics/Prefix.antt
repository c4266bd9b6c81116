-- ===== src/Provisioning/Topics/Prefix.antt =====
-- src/provisioning/topics.rs: the test of a topic's prefix.
use mathlib.Core.Bool.{true≢false}
use rustot.Prelude.{
  ℕ, zero, suc, ◌≡◌, refl, ◌∙◌, Bool, true, false, ◌&&◌, none, List, ◌∷◌, [], Str, ◌++◌, ◌==◌,
  str_eq, str_eq_iff, codes, arith, ◌||◌, subst, sym, Bool-cases, if◌then◌else◌, inl, inr,
}
use rustot.Prelude.Text.{splitn, starts_with, cons_head}
use rustot.Provisioning.Topics.{from_str, read_pieces, check}

-- The first pieces of a text are what it starts with.
abbrev first : ℕ → List Str → Str → Bool
first c [] s = true
first c (a ∷ ps) s = starts_with a s

abbrev first_two : ℕ → List Str → Str → Bool
first_two c [] s = true
first_two c (a ∷ []) s = true
first_two c (a ∷ b ∷ ps) s = starts_with (a ++ c ∷ b) s

starts_with_self : (s : Str) → starts_with s s ≡ true
unfolding starts_with
starts_with_self [] = refl
starts_with_self (c ∷ s) = ground (arith, starts_with_self s)

first-cons_head :
    (c x : ℕ) (ps : List Str) (s : Str)
    → first c ps s ≡ true
    → first c (cons_head x ps) (x ∷ s) ≡ true
unfolding starts_with cons_head
first-cons_head c x [] s h = ground arith
first-cons_head c x (a ∷ ps) s h = ground arith

first_two-cons_head :
    (c x : ℕ) (ps : List Str) (s : Str)
    → first_two c ps s ≡ true
    → first_two c (cons_head x ps) (x ∷ s) ≡ true
unfolding starts_with cons_head
first_two-cons_head c x [] s h = ground arith
first_two-cons_head c x (a ∷ []) s h = ground arith
first_two-cons_head c x (a ∷ b ∷ ps) s h = ground arith

first-next :
    (same : Bool) (c x : ℕ) (ps qs : List Str) (s : Str)
    → first c (cons_head x qs) (x ∷ s) ≡ true
    → first c (if same then [] ∷ ps else cons_head x qs) (x ∷ s) ≡ true
unfolding starts_with
first-next true c x ps qs s h = refl
first-next false c x ps qs s h = h

first_two-next :
    (same : Bool) (c x : ℕ) (ps qs : List Str) (s : Str)
    → same ≡ (x == c)
    → first c ps s ≡ true
    → first_two c (cons_head x qs) (x ∷ s) ≡ true
    → first_two c (if same then [] ∷ ps else cons_head x qs) (x ∷ s) ≡ true
unfolding starts_with
first_two-next true c x [] qs s e h k = refl
first_two-next true c x (b ∷ ps) qs s e h k = ground arith
first_two-next false c x ps qs s e h k = k

first-splitn : (n c : ℕ) (s : Str) → first c (splitn (suc n) c s) s ≡ true
unfolding splitn starts_with
first-splitn zero c s = starts_with_self s
first-splitn (suc n) c [] = refl
first-splitn (suc n) c (x ∷ s) =
    first-next (x == c) c x (splitn (suc n) c s) (splitn (suc (suc n)) c s) s
      (first-cons_head c x (splitn (suc (suc n)) c s) s (first-splitn (suc n) c s))

first_two-splitn : (n c : ℕ) (s : Str) → first_two c (splitn (suc (suc n)) c s) s ≡ true
unfolding splitn starts_with
first_two-splitn n c [] = refl
first_two-splitn n c (x ∷ s) =
    first_two-next (x == c) c x (splitn (suc n) c s) (splitn (suc (suc n)) c s) s refl
      (first-splitn n c s)
      (first_two-cons_head c x (splitn (suc (suc n)) c s) s (first_two-splitn n c s))

both : {a b : Bool} → (a && b) ≡ true → (a ≡ true) × (b ≡ true)
both {a} {b} h = ground arith

-- Two pieces that are known.
unstarted :
    (a b p q s : Str)
    → starts_with (a ++ b'/' ∷ b) s ≡ true
    → starts_with (p ++ b'/' ∷ q) s ≡ false
    → (str_eq a p && str_eq b q) ≡ false
unstarted a b p q s e f = elim (Bool-cases (str_eq a p && str_eq b q)) [
  | inl h ↦
      let (u, v) = both h in
      let known =
        subst (λ x. starts_with (x ++ b'/' ∷ q) s ≡ true) ((str_eq_iff a p).0 u)
          (subst (λ y. starts_with (a ++ b'/' ∷ y) s ≡ true) ((str_eq_iff b q).0 v) e) in
      absurd (true≢false (sym known ∙ f))
  | inr h ↦ h
]

neither : (a b : Bool) → (a || b) ≡ false → (a ≡ false) × (b ≡ false)
neither a b h = ground arith

pieces_unread :
    (ps : List Str) (s : Str) → first_two b'/' ps s ≡ true → check s ≡ false → read_pieces ps ≡ none
unfolding read_pieces check
pieces_unread [] s h k = refl
pieces_unread (a ∷ []) s h k = refl
pieces_unread (a ∷ b ∷ ps) s h k =
    let (c, t) = neither _ _ k in
    rw (
      unstarted a b (codes "$aws") (codes "provisioning-templates") s h t,
      unstarted a b (codes "$aws") (codes "certificates") s h c,
    )

-- A topic that does not pass the test is not read.
pub check-from_str : (s : Str) → check s ≡ false → from_str s ≡ none
unfolding from_str
check-from_str s k = pieces_unread (splitn 6 b'/' s) s (first_two-splitn 4 b'/' s) k

-- ===== src/Mqtt/Chunks.antt =====
-- The packets in which a list of topics is sent.
use rustot.Prelude.{
  ℕ, zero, suc, ◌+◌, ◌-◌, ◌/◌, ◌≤◌, ◌<◌, min, ◌≡◌, refl, ap, ◌∙◌, List, [], ◌∷◌, ◌++◌, arith,
  length,
}
use rustot.Mqtt.{take, drop, chunks_in, chunks}

module _ {A : Type 0} where
  abbrev pub concat : List (List A) → List A
  concat [] = []
  concat (xs ∷ xss) = xs ++ concat xss

  -- Each packet has at least one topic and five at most.
  pub data Sized : List (List A) → Type 0 where
    nil : Sized []
    cons :
        (p : List A) (ps : List (List A)) → 0 < length p → length p ≤ 5 → Sized ps → Sized (p ∷ ps)

  append-take-drop : (n : ℕ) (xs : List A) → take n xs ++ drop n xs ≡ xs
  append-take-drop zero xs = refl
  append-take-drop (suc n) [] = refl
  append-take-drop (suc n) (x ∷ xs) = ap (λ (l : List A). x ∷ l) (append-take-drop n xs)

  length-take : (n : ℕ) (xs : List A) → length (take n xs) ≡ min n (length xs)
  length-take zero xs = omega arith
  length-take (suc n) [] = omega arith
  length-take (suc n) (x ∷ xs) = omega (arith, length-take n xs)

  length-drop : (n : ℕ) (xs : List A) → length (drop n xs) ≡ length xs - n
  length-drop zero xs = omega arith
  length-drop (suc n) [] = omega arith
  length-drop (suc n) (x ∷ xs) = omega (arith, length-drop n xs)

  concat-chunks_in : (fuel : ℕ) (xs : List A) → length xs ≤ fuel → concat (chunks_in fuel 5 xs) ≡ xs
  unfolding chunks_in
  concat-chunks_in zero [] h = refl
  concat-chunks_in zero (x ∷ xs) h = absurd (omega arith)
  concat-chunks_in (suc fuel) [] h = refl
  concat-chunks_in (suc fuel) (x ∷ xs) h =
      ap (λ (l : List A). take 5 (x ∷ xs) ++ l)
        (concat-chunks_in fuel (drop 5 (x ∷ xs)) (omega (arith, length-drop 5 (x ∷ xs))))
      ∙ append-take-drop 5 (x ∷ xs)

  length-chunks_in :
      (fuel : ℕ) (xs : List A)
      → length xs ≤ fuel
      → length (chunks_in fuel 5 xs) ≡ (length xs + 4) / 5
  unfolding chunks_in
  length-chunks_in zero [] h = omega arith
  length-chunks_in zero (x ∷ xs) h = absurd (omega arith)
  length-chunks_in (suc fuel) [] h = omega arith
  length-chunks_in (suc fuel) (x ∷ xs) h = omega (
    arith,
    length-drop 5 (x ∷ xs),
    length-chunks_in fuel (drop 5 (x ∷ xs)) (omega (arith, length-drop 5 (x ∷ xs))),
  )

  chunks_in-Sized : (fuel : ℕ) (xs : List A) → Sized (chunks_in fuel 5 xs)
  unfolding chunks_in
  chunks_in-Sized zero xs = nil
  chunks_in-Sized (suc fuel) [] = nil
  chunks_in-Sized (suc fuel) (x ∷ xs) =
      cons _ _ (omega (arith, length-take 5 (x ∷ xs))) (omega (arith, length-take 5 (x ∷ xs)))
        (chunks_in-Sized fuel (drop 5 (x ∷ xs)))

  pub concat-chunks : (xs : List A) → concat (chunks 5 xs) ≡ xs
  unfolding chunks
  concat-chunks xs = concat-chunks_in (length xs) xs (omega arith)

  pub length-chunks : (xs : List A) → length (chunks 5 xs) ≡ (length xs + 4) / 5
  unfolding chunks
  length-chunks xs = length-chunks_in (length xs) xs (omega arith)

  pub chunks-Sized : (xs : List A) → Sized (chunks 5 xs)
  unfolding chunks
  chunks-Sized xs = chunks_in-Sized (length xs) xs

-- ===== src/Websearch/Chunks/Whole.antt =====
-- The chunks of a text make the text.
use siderostat.Prelude.{
  ℕ, zero, suc, ◌≤◌, ◌<◌, ◌≡◌, refl, ap, ◌∙◌, List, [], ◌∷◌, ◌++◌, arith, min, max, length, take,
  drop,
}
use siderostat.Websearch.{Text}
use siderostat.Websearch.Chunks.{back_off, chunk_end, split, split_utf8_chunks}

abbrev pub concat : List Text → Text
concat [] = []
concat (c ∷ cs) = c ++ concat cs

-- A chunk has a byte, and at most the limit or, where that is less, the length of one character.
abbrev pub AreSized : ℕ → List Text → Type 0
AreSized limit [] = Unit
AreSized limit (c ∷ cs) = (0 < length c) × (length c ≤ max limit 4) × AreSized limit cs

pub take-drop : (e : ℕ) (xs : Text) → take e xs ++ drop e xs ≡ xs
take-drop zero xs = refl
take-drop (suc e) [] = refl
take-drop (suc e) (x ∷ xs) = ap (λ (t : Text). x ∷ t) (take-drop e xs)

pub length-drop : (e : ℕ) (x : ℕ) (xs : Text) → 0 < e → length (drop e (x ∷ xs)) ≤ length xs
length-drop zero x xs h = omega (arith, h)
length-drop (suc e) x xs h = shorter e xs
  where
    shorter : (e : ℕ) (xs : Text) → length (drop e xs) ≤ length xs
    shorter zero xs = omega arith
    shorter (suc e) [] = omega arith
    shorter (suc e) (x ∷ xs) = omega (arith, shorter e xs)

length-take : (e : ℕ) (xs : Text) → length (take e xs) ≤ e
length-take zero xs = omega arith
length-take (suc e) [] = omega arith
length-take (suc e) (x ∷ xs) = omega (arith, length-take e xs)

take_positive : (e : ℕ) (x : ℕ) (xs : Text) → 0 < e → 0 < length (take e (x ∷ xs))
take_positive zero x xs h = omega (arith, h)
take_positive (suc e) x xs h = omega arith

back_off_bound : (e : ℕ) (xs : Text) → back_off e xs ≤ e
unfolding back_off
back_off_bound zero xs = omega arith
back_off_bound (suc e) xs = ground (arith, back_off_bound e xs)

pub chunk_end_bounds :
    (limit b : ℕ) (bs : Text)
    → (0 < chunk_end limit (b ∷ bs)) × (chunk_end limit (b ∷ bs) ≤ max limit 4)
unfolding chunk_end
chunk_end_bounds limit b bs =
    let h = back_off_bound (min limit (length (b ∷ bs))) (b ∷ bs) in
    (ground (arith, h), ground (arith, h))

split_whole :
    (fuel limit : ℕ) (text : Text)
    → length text ≤ fuel
    → (concat (split fuel limit text) ≡ text) × AreSized limit (split fuel limit text)
unfolding split
split_whole zero limit [] h = (refl, tt)
split_whole zero limit (b ∷ bs) h = absurd (omega (arith, h))
split_whole (suc fuel) limit [] h = (refl, tt)
split_whole (suc fuel) limit (b ∷ bs) h =
    let e = chunk_end limit (b ∷ bs) in
    let bounds = chunk_end_bounds limit b bs in
    let rest =
      split_whole fuel limit (drop e (b ∷ bs)) (omega (arith, h, length-drop e b bs bounds.0)) in
    (
      ap (λ (t : Text). take e (b ∷ bs) ++ t) rest.0 ∙ take-drop e (b ∷ bs),
      (take_positive e b bs bounds.0, omega (arith, length-take e (b ∷ bs), bounds.1), rest.1),
    )

-- The chunks of a text, put together, are the text, whatever its bytes and the limit: the splitting
-- ends with nothing left. No chunk is empty, and none is longer than the limit, or than four bytes,
-- the length of one character, where the limit is less.
pub split_utf8_chunks_whole :
    (text : Text) (limit : ℕ)
    → (concat (split_utf8_chunks text limit) ≡ text) × AreSized limit (split_utf8_chunks text limit)
unfolding split_utf8_chunks
split_utf8_chunks_whole text limit = split_whole (length text) limit text (omega arith)

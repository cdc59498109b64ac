-- ===== src/Websearch/Chunks/Characters.antt =====
-- The chunks of a text are made of its characters.
use siderostat.Prelude.{
  ℕ, zero, suc, ◌≤◌, ◌≡◌, refl, ap, subst, ◌∙◌, ◌⊎◌, inl, inr, true, false, List, [], ◌∷◌, ◌++◌,
  map, arith, min, length, take, drop, if◌then◌else◌, ◌==◌,
}
use siderostat.Websearch.{Text}
use siderostat.Websearch.Chunks.{
  is_continuation, is_boundary, utf8_len, back_off, chunk_end, split, split_utf8_chunks,
}
use siderostat.Websearch.Chunks.Whole.{length-drop, chunk_end_bounds}

-- A character in UTF-8: its first byte, and the bytes that continue it.
pub record Character : Type 0 where
  pub first : ℕ
  pub others : Text

unfoldable pub AllContinue : Text → Type 0
AllContinue [] = Unit
AllContinue (b ∷ bs) = (is_continuation b ≡ true) × AllContinue bs

pub record IsUtf8 (c : Character) : Type 0 where
  pub starts : is_continuation c.first ≡ false
  pub continue : AllContinue c.others
  pub has_length : utf8_len c.first ≡ suc (length c.others)

unfoldable pub AllUtf8 : List Character → Type 0
AllUtf8 [] = Unit
AllUtf8 (c ∷ cs) = IsUtf8 c × AllUtf8 cs

-- The bytes of the characters.
abbrev pub encode : List Character → Text
encode [] = []
encode (c ∷ cs) = c.first ∷ (c.others ++ encode cs)

abbrev pub join : List (List Character) → List Character
join [] = []
join (cs ∷ css) = cs ++ join css

-- Where a text is cut at a boundary, its characters are cut.
record Cut (e : ℕ) (cs : List Character) : Type 0 where
  front : List Character
  back : List Character
  taken : take e (encode cs) ≡ encode front
  dropped : drop e (encode cs) ≡ encode back
  whole : front ++ back ≡ cs
  good : AllUtf8 back

-- `j` further than the end of a list.
abbrev past : Text → ℕ → ℕ
past [] j = j
past (x ∷ xs) j = suc (past xs j)

-- A boundary is not inside a character.
beyond :
    (i : ℕ) (others rest : Text)
    → AllContinue others
    → is_boundary i (others ++ rest) ≡ true
    → (j : ℕ) × ((i ≡ past others j) × (is_boundary j rest ≡ true))
unfolding AllContinue
beyond i [] rest c h = (i, (refl, h))
beyond zero (b ∷ bs) rest c h = absurd (ground (arith, h, c.0))
beyond (suc i) (b ∷ bs) rest c h = let r = beyond i bs rest c.1 h in (r.0, (ap suc r.1.0, r.1.1))

take_over : (xs ys : Text) (j : ℕ) → take (past xs j) (xs ++ ys) ≡ xs ++ take j ys
take_over [] ys j = refl
take_over (x ∷ xs) ys j = ap (λ (t : Text). x ∷ t) (take_over xs ys j)

drop_over : (xs ys : Text) (j : ℕ) → drop (past xs j) (xs ++ ys) ≡ drop j ys
drop_over [] ys j = refl
drop_over (x ∷ xs) ys j = drop_over xs ys j

cut : (e : ℕ) (cs : List Character) → AllUtf8 cs → is_boundary e (encode cs) ≡ true → Cut e cs
unfolding AllUtf8
cut zero cs u h = record {
  front = [];
  back = cs;
  taken = refl;
  dropped = refl;
  whole = refl;
  good = u;
}
cut (suc i) [] u h = absurd (ground (arith, h))
cut (suc i) (c ∷ cs) u h =
    let b = beyond i c.others (encode cs) u.0.continue h in
    let r = cut b.0 cs u.1 b.1.1 in
    record {
      front = c ∷ r.front;
      back = r.back;
      taken =
          ap (λ (n : ℕ). c.first ∷ take n (c.others ++ encode cs)) b.1.0
          ∙ ap (λ (t : Text). c.first ∷ t)
              (take_over c.others (encode cs) b.0 ∙ ap (λ (t : Text). c.others ++ t) r.taken);
      dropped =
          ap (λ (n : ℕ). drop n (c.others ++ encode cs)) b.1.0
          ∙ drop_over c.others (encode cs) b.0
          ∙ r.dropped;
      whole = ap (λ (l : List Character). c ∷ l) r.whole;
      good = r.good;
    }

back_off_boundary :
    (e : ℕ) (text : Text) → (back_off e text ≡ 0) ⊎ (is_boundary (back_off e text) text ≡ true)
unfolding back_off
back_off_boundary zero text = inl refl
back_off_boundary (suc e) text = ground (arith, back_off_boundary e text)

starts-boundary : (cs : List Character) → AllUtf8 cs → is_boundary 0 (encode cs) ≡ true
unfolding AllUtf8
starts-boundary [] u = refl
starts-boundary (c ∷ cs) u = ground (arith, u.0.starts)

boundary_over : (xs ys : Text) → is_boundary (length xs) (xs ++ ys) ≡ is_boundary 0 ys
boundary_over [] ys = refl
boundary_over (x ∷ xs) ys = boundary_over xs ys

-- A chunk ends at a boundary, also when it is one character that exceeds the limit.
chunk_end-boundary :
    (limit : ℕ) (c : Character) (cs : List Character)
    → AllUtf8 (c ∷ cs)
    → is_boundary (chunk_end limit (encode (c ∷ cs))) (encode (c ∷ cs)) ≡ true
unfolding chunk_end AllUtf8
chunk_end-boundary limit c cs u =
    ends (back_off (min limit (length (encode (c ∷ cs)))) (encode (c ∷ cs)))
      (back_off_boundary (min limit (length (encode (c ∷ cs)))) (encode (c ∷ cs)))
  where
    first : is_boundary (utf8_len c.first) (encode (c ∷ cs)) ≡ true
    first =
        ap (λ (n : ℕ). is_boundary n (encode (c ∷ cs))) u.0.has_length
        ∙ boundary_over c.others (encode cs)
        ∙ starts-boundary cs u.1

    ends :
        (n : ℕ)
        → ((n ≡ 0) ⊎ (is_boundary n (encode (c ∷ cs)) ≡ true))
        → is_boundary (if n == 0 then utf8_len c.first else n) (encode (c ∷ cs)) ≡ true
    ends zero h = first
    ends (suc n) (inl h) = absurd (omega (arith, h))
    ends (suc n) (inr h) = ground (arith, h)

split_characters :
    (fuel limit : ℕ) (cs : List Character)
    → AllUtf8 cs
    → length (encode cs) ≤ fuel
    → (css : List (List Character)) × ((split fuel limit (encode cs) ≡ map encode css)
        × (join css ≡ cs))
unfolding split
split_characters zero limit [] u h = ([], (refl, refl))
split_characters zero limit (c ∷ cs) u h = absurd (omega (arith, h))
split_characters (suc fuel) limit [] u h = ([], (refl, refl))
split_characters (suc fuel) limit (c ∷ cs) u h =
    let e = chunk_end limit (encode (c ∷ cs)) in
    let r = cut e (c ∷ cs) u (chunk_end-boundary limit c cs u) in
    let shorter =
      length-drop e c.first (c.others ++ encode cs)
        (chunk_end_bounds limit c.first (c.others ++ encode cs)).0 in
    let rest =
      split_characters fuel limit r.back r.good
        (subst (λ (t : Text). length t ≤ fuel) r.dropped (omega (arith, h, shorter))) in
    (
      r.front ∷ rest.0,
      (
        ap (λ (t : Text). t ∷ split fuel limit (drop e (encode (c ∷ cs)))) r.taken
            ∙ ap (λ (t : Text). encode r.front ∷ split fuel limit t) r.dropped
            ∙ ap (λ (l : List Text). encode r.front ∷ l) rest.1.0,
        ap (λ (l : List Character). r.front ++ l) rest.1.1 ∙ r.whole,
      ),
    )

-- The splitting of the bytes is a splitting of the characters: for a text in UTF-8 each chunk is the
-- bytes of a list of characters, and these lists, put together, are the characters of the text. No
-- character is torn apart, whatever the limit.
pub split_utf8_chunks_refines :
    (cs : List Character) (limit : ℕ)
    → AllUtf8 cs
    → (css : List (List Character)) × ((split_utf8_chunks (encode cs) limit ≡ map encode css)
        × (join css ≡ cs))
unfolding split_utf8_chunks
split_utf8_chunks_refines cs limit u =
    split_characters (length (encode cs)) limit cs u (omega arith)

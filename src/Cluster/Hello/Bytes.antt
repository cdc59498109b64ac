-- ===== src/Cluster/Hello/Bytes.antt =====
-- Big-endian words of 32 bits, and the bytes that `str::from_utf8` accepts.
use siderostat.Prelude.{
  AllBytes, ℕ, zero, suc, ◌+◌, ◌*◌, ◌/◌, ◌%◌, ◌≤◌, ◌<◌, Bool, true, false, ◌&&◌, ◌≡◌, refl, sym, ap,
  ◌∙◌, List, [], ◌∷◌, if◌then◌else◌, ltb, leb, ◌==◌, arith, length, take, drop,
}

abbrev pub u32_mod : ℕ
u32_mod = 4294967296

-- `to_be_bytes`, in front of the bytes that follow.
abbrev pub be32 : ℕ → List ℕ → List ℕ
be32 v rest = (v / 16777216 % 256) ∷ (v / 65536 % 256) ∷ (v / 256 % 256) ∷ (v % 256) ∷ rest

-- `from_be_bytes` of the first four bytes.
abbrev pub word : List ℕ → ℕ
word (a ∷ b ∷ c ∷ d ∷ rest) = ((a * 256 + b) * 256 + c) * 256 + d
word _ = 0

-- What may follow a first byte: how many bytes, and the range of the next one.
abbrev lead : ℕ → ℕ × ℕ × ℕ × Bool
lead b =
    if ltb b 128
    then (0, 0, 0, true)
    else if ltb b 194
    then (0, 0, 0, false)
    else if ltb b 224
    then (1, 128, 191, true)
    else if b == 224
    then (2, 160, 191, true)
    else if b == 237
    then (2, 128, 159, true)
    else if ltb b 240
    then (2, 128, 191, true)
    else if b == 240
    then (3, 144, 191, true)
    else if ltb b 244
    then (3, 128, 191, true)
    else if b == 244
    then (3, 128, 143, true)
    else (0, 0, 0, false)

-- So many more bytes of a character are due, the next one in this range.
utf8_from : ℕ → ℕ → ℕ → List ℕ → Bool
utf8_from zero lo hi [] = true
utf8_from (suc k) lo hi [] = false
utf8_from zero lo hi (b ∷ bs) = (lead b).3 && utf8_from (lead b).0 (lead b).1 (lead b).2 bs
utf8_from (suc k) lo hi (b ∷ bs) = leb lo b && leb b hi && utf8_from k 128 191 bs

unfoldable pub is_utf8 : List ℕ → Bool
unfolding utf8_from
is_utf8 bytes = utf8_from 0 0 0 bytes

pub word-be32 : (v : ℕ) (rest : List ℕ) → v < u32_mod → word (be32 v rest) ≡ v
word-be32 v rest h = omega arith

pub be32-word : (bs : List ℕ) → AllBytes bs → 4 ≤ length bs → be32 (word bs) (drop 4 bs) ≡ bs
be32-word [] all h = absurd (omega arith)
be32-word (a ∷ []) all h = absurd (omega arith)
be32-word (a ∷ b ∷ []) all h = absurd (omega arith)
be32-word (a ∷ b ∷ c ∷ []) all h = absurd (omega arith)
be32-word (a ∷ b ∷ c ∷ d ∷ rest) (ha, (hb, (hc, (hd, all)))) h = ground arith

pub word-lt : (bs : List ℕ) → AllBytes bs → word bs < u32_mod
word-lt [] all = omega arith
word-lt (a ∷ []) all = omega arith
word-lt (a ∷ b ∷ []) all = omega arith
word-lt (a ∷ b ∷ c ∷ []) all = omega arith
word-lt (a ∷ b ∷ c ∷ d ∷ rest) (ha, (hb, (hc, (hd, all)))) = omega arith

pub AllBytes-drop : (n : ℕ) (bs : List ℕ) → AllBytes bs → AllBytes (drop n bs)
AllBytes-drop zero bs all = all
AllBytes-drop (suc n) [] all = tt
AllBytes-drop (suc n) (b ∷ bs) all = AllBytes-drop n bs all.1

pub drop-nil : (n : ℕ) → drop {A = ℕ} n [] ≡ []
drop-nil zero = refl
drop-nil (suc n) = refl

suc_left : (m n : ℕ) → suc m + n ≡ suc (m + n)
suc_left m n = omega arith

pub drop-drop : (m n : ℕ) (bs : List ℕ) → drop n (drop m bs) ≡ drop (m + n) bs
drop-drop zero n bs = ap (λ (k : ℕ). drop k bs) (omega arith)
drop-drop (suc m) n [] = drop-nil n ∙ sym (drop-nil (suc m + n))
drop-drop (suc m) n (b ∷ bs) =
    drop-drop m n bs ∙ sym (ap (λ (k : ℕ). drop {A = ℕ} k (b ∷ bs)) (suc_left m n))

word-take : (n : ℕ) (bs : List ℕ) → word (take (suc (suc (suc (suc n)))) bs) ≡ word bs
word-take n [] = refl
word-take n (a ∷ []) = refl
word-take n (a ∷ b ∷ []) = refl
word-take n (a ∷ b ∷ c ∷ []) = refl
word-take n (a ∷ b ∷ c ∷ d ∷ rest) = refl

pub word-drop-take :
    (k n : ℕ) (bs : List ℕ) → k + 4 ≤ n → word (drop k (take n bs)) ≡ word (drop k bs)
word-drop-take zero zero bs h = absurd (omega arith)
word-drop-take zero (suc zero) bs h = absurd (omega arith)
word-drop-take zero (suc (suc zero)) bs h = absurd (omega arith)
word-drop-take zero (suc (suc (suc zero))) bs h = absurd (omega arith)
word-drop-take zero (suc (suc (suc (suc n)))) bs h = word-take n bs
word-drop-take (suc k) zero bs h = absurd (omega arith)
word-drop-take (suc k) (suc n) [] h = ap word (drop-nil (suc k))
word-drop-take (suc k) (suc n) (b ∷ bs) h = word-drop-take k n bs (omega arith)

pub take-all : (n : ℕ) (bs : List ℕ) → length bs ≤ n → take n bs ≡ bs
take-all zero [] h = refl
take-all zero (b ∷ bs) h = absurd (omega arith)
take-all (suc n) [] h = refl
take-all (suc n) (b ∷ bs) h = ap (λ (r : List ℕ). b ∷ r) (take-all n bs (omega arith))

pub length-drop : (n : ℕ) (bs : List ℕ) → n ≤ length bs → length (drop n bs) + n ≡ length bs
length-drop zero bs h = omega arith
length-drop (suc n) [] h = absurd (omega arith)
length-drop (suc n) (b ∷ bs) h = omega (arith, length-drop n bs)

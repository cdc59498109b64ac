-- ===== src/Websearch/Chunks.antt =====
-- src/websearch/sse.rs: `split_utf8_chunks`.
pub mod Whole
pub mod Characters
use siderostat.Prelude.{
  ℕ, zero, suc, Bool, true, false, not, ◌&&◌, List, [], ◌∷◌, if◌then◌else◌, ltb, leb, ◌==◌, min,
  length, take, drop,
}
use siderostat.Websearch.{Text}

abbrev pub is_continuation : ℕ → Bool
is_continuation b = leb 128 b && ltb b 192

-- `is_char_boundary`, of an index into the text that is left.
abbrev pub is_boundary : ℕ → Text → Bool
is_boundary zero [] = true
is_boundary zero (b ∷ bs) = not (is_continuation b)
is_boundary (suc i) [] = false
is_boundary (suc i) (b ∷ bs) = is_boundary i bs

-- The loop that goes back to a boundary.
unfoldable pub back_off : ℕ → Text → ℕ
back_off zero text = 0
back_off (suc end) text =
    let before = back_off end text in if is_boundary (suc end) text then suc end else before

-- `len_utf8` of the first character, by its first byte.
abbrev pub utf8_len : ℕ → ℕ
utf8_len b = if ltb b 128 then 1 else if ltb b 224 then 2 else if ltb b 240 then 3 else 4

abbrev first_len : Text → ℕ
first_len [] = 0
first_len (b ∷ bs) = utf8_len b

-- Where the next chunk ends, counted from where it starts.
unfoldable pub chunk_end : ℕ → Text → ℕ
chunk_end max_bytes text =
    let end = back_off (min max_bytes (length text)) text in
    if end == 0 then first_len text else end

-- The outer loop, on fuel.
unfoldable pub split : ℕ → ℕ → Text → List Text
split zero max_bytes text = []
split (suc fuel) max_bytes [] = []
split (suc fuel) max_bytes (b ∷ bs) =
    let end = chunk_end max_bytes (b ∷ bs) in
    take end (b ∷ bs) ∷ split fuel max_bytes (drop end (b ∷ bs))

-- A chunk has a byte, so the length of the text is fuel enough.
unfoldable pub split_utf8_chunks : Text → ℕ → List Text
split_utf8_chunks text max_bytes = split (length text) max_bytes text

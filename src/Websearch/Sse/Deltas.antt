-- ===== src/Websearch/Sse/Deltas.antt =====
-- What a client makes of the deltas.
use siderostat.Prelude.{
  ℕ, zero, suc, ◌+◌, ◌<◌, ◌≡◌, refl, ap, sym, ◌∙◌, Bool, false, some, List, [], ◌∷◌, ◌++◌, length,
  arith, if◌then◌else◌, ◌==◌, ==_refl,
}
use siderostat.Websearch.{
  Text, OutputItem, web_search_call, message, function_call, AssembledResponse, ItemJson,
  message_json, call_json, ResponseObject, nonstreaming_object,
}
use siderostat.Websearch.Chunks.{split_utf8_chunks}
use siderostat.Websearch.Chunks.Whole.{concat, split_utf8_chunks_whole}
use siderostat.Websearch.Sse.Numbered.{reconstruct_object-EndsCompleted, render_sse-AreNumbered}
use siderostat.Websearch.Sse.{
  SseEvent, text_delta, arguments_delta, render_deltas, render_chunks, render_item, render_items,
  render_sse_with_chunk, reconstruct_object,
}

-- The delta that an event has for the item with this index.
abbrev delta_for : ℕ → SseEvent → Text
delta_for i (text_delta n index id delta) = if index == i then delta else []
delta_for i (arguments_delta n index id delta) = if index == i then delta else []
delta_for i _ = []

-- A client that puts the deltas of an item together.
unfoldable pub collect : ℕ → List SseEvent → Text
collect i [] = []
collect i (e ∷ es) = delta_for i e ++ collect i es

-- What the deltas of an item should make: its text or its arguments.
abbrev pub streamed : OutputItem → Text
streamed (web_search_call id query) = []
streamed (message id text) = text
streamed (function_call id call_id name arguments) = arguments

abbrev pub streamed_at : ℕ → List OutputItem → Text
streamed_at i [] = []
streamed_at zero (item ∷ items) = streamed item
streamed_at (suc i) (item ∷ items) = streamed_at i items

append_nil : (t : Text) → t ++ [] ≡ t
append_nil [] = refl
append_nil (b ∷ bs) = ap (λ (t : Text). b ∷ t) (append_nil bs)

append_assoc : (r s t : Text) → (r ++ s) ++ t ≡ r ++ (s ++ t)
append_assoc [] s t = refl
append_assoc (b ∷ bs) s t = ap (λ (t : Text). b ∷ t) (append_assoc bs s t)

collect-append :
    (i : ℕ) (es ds : List SseEvent) → collect i (es ++ ds) ≡ collect i es ++ collect i ds
unfolding collect
collect-append i [] ds = refl
collect-append i (e ∷ es) ds =
    ap (λ (t : Text). delta_for i e ++ t) (collect-append i es ds)
    ∙ sym (append_assoc (delta_for i e) (collect i es) (collect i ds))

module _ (delta : ℕ → Text → SseEvent) (i : ℕ) where
  -- Deltas of the item itself, and deltas of another one.
  collect-own :
      ((n : ℕ) (t : Text) → delta_for i (delta n t) ≡ t)
      → (n : ℕ) (cs : List Text) → collect i (render_deltas delta n cs) ≡ concat cs
  unfolding collect
  collect-own h n [] = refl
  collect-own h n (c ∷ cs) =
      ap (λ (t : Text). t ++ collect i (render_deltas delta (n + 1) cs)) (h n c)
      ∙ ap (λ (t : Text). c ++ t) (collect-own h (n + 1) cs)

  collect-other :
      ((n : ℕ) (t : Text) → delta_for i (delta n t) ≡ [])
      → (n : ℕ) (cs : List Text) → collect i (render_deltas delta n cs) ≡ []
  unfolding collect
  collect-other h n [] = refl
  collect-other h n (c ∷ cs) =
      ap (λ (t : Text). t ++ collect i (render_deltas delta (n + 1) cs)) (h n c)
      ∙ collect-other h (n + 1) cs

collect-chunks :
    (i n index : ℕ) (item : OutputItem) (added : ItemJson) (delta : ℕ → Text → SseEvent)
    (cs : List Text)
    → collect i (render_chunks n index item added delta cs)
      ≡ collect i (render_deltas delta (n + 1) cs)
unfolding collect
collect-chunks i n index item added delta cs =
    collect-append i (render_deltas delta (n + 1) cs) _
    ∙ append_nil (collect i (render_deltas delta (n + 1) cs))

is_own : (i : ℕ) (t : Text) → (if i == i then t else []) ≡ t
is_own i t = ap (λ (b : Bool). if b then t else []) (==_refl i)

is_other : (index i : ℕ) (t : Text) → (index == i) ≡ false → (if index == i then t else []) ≡ []
is_other index i t h = ap (λ (b : Bool). if b then t else []) h

collect-item :
    (bytes n i : ℕ) (item : OutputItem) → collect i (render_item bytes n i item) ≡ streamed item
unfolding render_item collect
collect-item bytes n i (web_search_call id query) = refl
collect-item bytes n i (message id text) =
    collect-chunks i n i (message id text) (message_json id []) (λ n delta. text_delta n i id delta)
      (split_utf8_chunks text bytes)
    ∙ collect-own (λ n delta. text_delta n i id delta) i (λ n t. is_own i t) (n + 1)
        (split_utf8_chunks text bytes)
    ∙ (split_utf8_chunks_whole text bytes).0
collect-item bytes n i (function_call id call_id name arguments) =
    collect-chunks i n i (function_call id call_id name arguments) (call_json id call_id name [])
      (λ n delta. arguments_delta n i id delta) (split_utf8_chunks arguments bytes)
    ∙ collect-own (λ n delta. arguments_delta n i id delta) i (λ n t. is_own i t) (n + 1)
        (split_utf8_chunks arguments bytes)
    ∙ (split_utf8_chunks_whole arguments bytes).0

collect-other_item :
    (bytes n index i : ℕ) (item : OutputItem)
    → (index == i) ≡ false
    → collect i (render_item bytes n index item) ≡ []
unfolding render_item collect
collect-other_item bytes n index i (web_search_call id query) h = refl
collect-other_item bytes n index i (message id text) h =
    collect-chunks i n index (message id text) (message_json id [])
      (λ n delta. text_delta n index id delta) (split_utf8_chunks text bytes)
    ∙ collect-other (λ n delta. text_delta n index id delta) i (λ n t. is_other index i t h) (n + 1)
        (split_utf8_chunks text bytes)
collect-other_item bytes n index i (function_call id call_id name arguments) h =
    collect-chunks i n index (function_call id call_id name arguments)
      (call_json id call_id name []) (λ n delta. arguments_delta n index id delta)
      (split_utf8_chunks arguments bytes)
    ∙ collect-other (λ n delta. arguments_delta n index id delta) i (λ n t. is_other index i t h)
        (n + 1) (split_utf8_chunks arguments bytes)

differs : (a b : ℕ) → (a < b) → ((b == a) ≡ false)
differs a b h = ground (arith, h)

-- An item before the ones that are rendered has no delta.
collect-before :
    (bytes n index i : ℕ) (items : List OutputItem) (r : ResponseObject)
    → i < index
    → collect i (render_items bytes n index items r) ≡ []
unfolding render_items collect
collect-before bytes n index i [] r h = refl
collect-before bytes n index i (item ∷ items) r h =
    collect-append i (render_item bytes n index item) _
    ∙ ap
        (λ (t : Text).
          t
          ++ collect i (
              render_items bytes (n + length (render_item bytes n index item)) (suc index) items r))
        (collect-other_item bytes n index i item (differs i index h))
    ∙ collect-before bytes (n + length (render_item bytes n index item)) (suc index) i items r
        (omega (arith, h))

-- The index of the k-th item, the first having `index`.
abbrev place : ℕ → ℕ → ℕ
place zero index = index
place (suc k) index = place k (suc index)

place_sum : (k index : ℕ) → place k index ≡ k + index
place_sum zero index = omega arith
place_sum (suc k) index = omega (arith, place_sum k (suc index))

unequal : (a b : ℕ) → a < b → ((a == b) ≡ false)
unequal a b h = ground (arith, h)

collect-items :
    (bytes n index k : ℕ) (items : List OutputItem) (r : ResponseObject)
    → collect (place k index) (render_items bytes n index items r) ≡ streamed_at k items
unfolding render_items collect
collect-items bytes n index k [] r = refl
collect-items bytes n index zero (item ∷ items) r =
    collect-append index (render_item bytes n index item) _
    ∙ ap (λ (t : Text). collect index (render_item bytes n index item) ++ t)
        (collect-before bytes (n + length (render_item bytes n index item)) (suc index) index items
          r (omega arith))
    ∙ append_nil _
    ∙ collect-item bytes n index item
collect-items bytes n index (suc k) (item ∷ items) r =
    collect-append (place k (suc index)) (render_item bytes n index item) _
    ∙ ap
        (λ (t : Text).
          t
          ++ collect (place k (suc index)) (
              render_items bytes (n + length (render_item bytes n index item)) (suc index) items r))
        (collect-other_item bytes n index (place k (suc index)) item
          (unequal index (place k (suc index)) (omega (arith, place_sum k (suc index)))))
    ∙ collect-items bytes (n + length (render_item bytes n index item)) (suc index) k items r

-- A client that puts together the deltas of an item, by its index, has the text of a message and the
-- arguments of a call in full, whatever the limit on a chunk; a search has no deltas, and no index
-- beyond the output has any. The object that is rebuilt from the stream is the one that is returned
-- without a stream.
pub collect-render_sse :
    (a : AssembledResponse) (bytes i : ℕ)
    → (collect i (render_sse_with_chunk a bytes) ≡ streamed_at i a.output)
      × (reconstruct_object (render_sse_with_chunk a bytes) ≡ some (nonstreaming_object a))
unfolding render_sse_with_chunk collect
collect-render_sse a bytes i = (
  ap (λ (j : ℕ). collect j (render_items bytes 2 0 a.output (nonstreaming_object a)))
        (omega (arith, place_sum i 0))
      ∙ collect-items bytes 2 0 i a.output (nonstreaming_object a),
  reconstruct_object-EndsCompleted (nonstreaming_object a) (render_sse_with_chunk a bytes)
      (render_sse-AreNumbered a bytes).1,
)

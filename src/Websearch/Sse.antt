-- ===== src/Websearch/Sse.antt =====
-- src/websearch/sse.rs: the events that carry a response, or a failure.
pub mod Numbered
pub mod Deltas
use siderostat.Prelude.{
  ℕ, suc, ◌+◌, Bool, true, false, Option, none, some, List, [], ◌∷◌, ◌++◌, map, length,
}
use siderostat.Websearch.{
  Text, OutputItem, web_search_call, message, function_call, AssembledResponse, ItemJson,
  search_started, message_json, call_json, output_item_to_json, ResponseObject, nonstreaming_object,
}
use siderostat.Websearch.Chunks.{split_utf8_chunks}

-- An event with its sequence number, then the index of the item, then the rest.
pub data SseEvent : Type 0 where
  created in_progress : ℕ → Text → SseEvent
  item_added item_done : ℕ → ℕ → ItemJson → SseEvent
  text_delta arguments_delta : ℕ → ℕ → ℕ → Text → SseEvent  -- the item's id, the delta
  completed : ℕ → ResponseObject → SseEvent
  failed : ℕ → Text → Text → Text → SseEvent  -- the response's id, the code, the message

-- The loop over the chunks of an item, from the number `seq`.
abbrev pub render_deltas : (ℕ → Text → SseEvent) → ℕ → List Text → List SseEvent
render_deltas delta seq [] = []
render_deltas delta seq (c ∷ cs) = delta seq c ∷ render_deltas delta (seq + 1) cs

abbrev with_done : ℕ → ℕ → OutputItem → List SseEvent
with_done seq index item = item_done seq index (output_item_to_json item) ∷ []

-- Added, its deltas and done.
abbrev pub render_chunks :
    ℕ → ℕ → OutputItem → ItemJson → (ℕ → Text → SseEvent) → List Text → List SseEvent
render_chunks seq index item added delta chunks =
    item_added seq index added
    ∷ (render_deltas delta (seq + 1) chunks ++ with_done (seq + 1 + length chunks) index item)

unfoldable pub render_item : ℕ → ℕ → ℕ → OutputItem → List SseEvent
render_item chunk_bytes seq index (web_search_call id query) =
    item_added seq index (search_started id) ∷ with_done (seq + 1) index (web_search_call id query)
render_item chunk_bytes seq index (message id text) =
    render_chunks seq index (message id text) (message_json id [])
      (λ n delta. text_delta n index id delta) (split_utf8_chunks text chunk_bytes)
render_item chunk_bytes seq index (function_call id call_id name arguments) =
    render_chunks seq index (function_call id call_id name arguments) (call_json id call_id name [])
      (λ n delta. arguments_delta n index id delta) (split_utf8_chunks arguments chunk_bytes)

-- The loop over the items, and the last event.
unfoldable pub render_items : ℕ → ℕ → ℕ → List OutputItem → ResponseObject → List SseEvent
render_items chunk_bytes seq index [] response = completed seq response ∷ []
render_items chunk_bytes seq index (item ∷ items) response =
    let events = render_item chunk_bytes seq index item in
    events ++ render_items chunk_bytes (seq + length events) (suc index) items response

unfoldable pub render_sse_with_chunk : AssembledResponse → ℕ → List SseEvent
render_sse_with_chunk a chunk_bytes =
    created 0 a.id
    ∷ in_progress 1 a.id
    ∷ render_items chunk_bytes 2 0 a.output (nonstreaming_object a)

abbrev default_text_chunk_bytes : ℕ
default_text_chunk_bytes = 4096

abbrev pub render_sse : AssembledResponse → List SseEvent
render_sse a = render_sse_with_chunk a default_text_chunk_bytes

unfoldable pub render_failed : Text → Text → Text → List SseEvent
render_failed response_id code text =
    created 0 response_id ∷ in_progress 1 response_id ∷ failed 2 response_id code text ∷ []

unfoldable pub reconstruct_object : List SseEvent → Option ResponseObject
reconstruct_object [] = none
reconstruct_object (completed seq response ∷ events) = some response
reconstruct_object (_ ∷ events) = reconstruct_object events

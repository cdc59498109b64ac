-- ===== src/Websearch/Sse/Numbered.antt =====
-- The numbers of the events, and their last one.
use siderostat.Prelude.{
  ℕ, suc, ◌+◌, ◌≡◌, refl, ap, ◌∙◌, subst, Bool, true, false, some, List, [], ◌∷◌, ◌++◌, length,
  arith,
}
use siderostat.Websearch.{
  Text, OutputItem, web_search_call, message, function_call, AssembledResponse, ItemJson,
  message_json, call_json, ResponseObject, nonstreaming_object,
}
use siderostat.Websearch.Chunks.{split_utf8_chunks}
use siderostat.Websearch.Sse.{
  SseEvent, created, in_progress, item_added, item_done, text_delta, arguments_delta, completed,
  failed, render_deltas, render_chunks, render_item, render_items, render_sse_with_chunk,
  reconstruct_object,
}

abbrev pub sequence_number : SseEvent → ℕ
sequence_number (created n id) = n
sequence_number (in_progress n id) = n
sequence_number (item_added n index item) = n
sequence_number (item_done n index item) = n
sequence_number (text_delta n index id delta) = n
sequence_number (arguments_delta n index id delta) = n
sequence_number (completed n response) = n
sequence_number (failed n id code text) = n

-- Numbered one by one, from `n`.
unfoldable pub AreNumbered : ℕ → List SseEvent → Type 0
AreNumbered n [] = Unit
AreNumbered n (e ∷ es) = (sequence_number e ≡ n) × AreNumbered (n + 1) es

abbrev pub is_completed : SseEvent → Bool
is_completed (completed n response) = true
is_completed _ = false

-- The last event is the completion, and no other.
unfoldable pub EndsCompleted : ResponseObject → List SseEvent → Type 0
EndsCompleted response [] = ⊥
EndsCompleted response (e ∷ []) = e ≡ completed (sequence_number e) response
EndsCompleted response (e ∷ d ∷ es) = (is_completed e ≡ false) × EndsCompleted response (d ∷ es)

AreNumbered-append :
    (n : ℕ) (es ds : List SseEvent)
    → AreNumbered n es
    → AreNumbered (n + length es) ds
    → AreNumbered n (es ++ ds)
unfolding AreNumbered
AreNumbered-append n [] ds h k = subst (λ (m : ℕ). AreNumbered m ds) (omega arith) k
AreNumbered-append n (e ∷ es) ds h k = (
  h.0,
  AreNumbered-append (n + 1) es ds h.1 (subst (λ (m : ℕ). AreNumbered m ds) (omega arith) k),
)

length-render_deltas :
    (delta : ℕ → Text → SseEvent) (n : ℕ) (cs : List Text)
    → length (render_deltas delta n cs) ≡ length cs
length-render_deltas delta n [] = refl
length-render_deltas delta n (c ∷ cs) = ap suc (length-render_deltas delta (n + 1) cs)

deltas-AreNumbered :
    (delta : ℕ → Text → SseEvent)
    → ((n : ℕ) (t : Text) → sequence_number (delta n t) ≡ n)
    → (n : ℕ) (cs : List Text) → AreNumbered n (render_deltas delta n cs)
unfolding AreNumbered
deltas-AreNumbered delta h n [] = tt
deltas-AreNumbered delta h n (c ∷ cs) = (h n c, deltas-AreNumbered delta h (n + 1) cs)

chunks-AreNumbered :
    (n index : ℕ) (item : OutputItem) (added : ItemJson) (delta : ℕ → Text → SseEvent)
    (cs : List Text)
    → ((n : ℕ) (t : Text) → sequence_number (delta n t) ≡ n)
    → AreNumbered n (render_chunks n index item added delta cs)
unfolding AreNumbered
chunks-AreNumbered n index item added delta cs h = (
  refl,
  AreNumbered-append (n + 1) (render_deltas delta (n + 1) cs) _
      (deltas-AreNumbered delta h (n + 1) cs)
      (omega (arith, length-render_deltas delta (n + 1) cs), tt),
)

item-AreNumbered :
    (bytes n index : ℕ) (item : OutputItem) → AreNumbered n (render_item bytes n index item)
unfolding render_item AreNumbered
item-AreNumbered bytes n index (web_search_call id query) = (refl, (refl, tt))
item-AreNumbered bytes n index (message id text) =
    chunks-AreNumbered n index (message id text) (message_json id [])
      (λ n delta. text_delta n index id delta) (split_utf8_chunks text bytes) (λ n t. refl)
item-AreNumbered bytes n index (function_call id call_id name arguments) =
    chunks-AreNumbered n index (function_call id call_id name arguments)
      (call_json id call_id name []) (λ n delta. arguments_delta n index id delta)
      (split_utf8_chunks arguments bytes) (λ n t. refl)

items-AreNumbered :
    (bytes n index : ℕ) (items : List OutputItem) (r : ResponseObject)
    → AreNumbered n (render_items bytes n index items r)
unfolding render_items AreNumbered
items-AreNumbered bytes n index [] r = (refl, tt)
items-AreNumbered bytes n index (item ∷ items) r =
    AreNumbered-append n (render_item bytes n index item) _ (item-AreNumbered bytes n index item)
      (items-AreNumbered bytes (n + length (render_item bytes n index item)) (suc index) items r)

-- No event of these is the completion.
Incomplete : List SseEvent → Type 0
Incomplete [] = Unit
Incomplete (e ∷ es) = (is_completed e ≡ false) × Incomplete es

EndsCompleted-append :
    (r : ResponseObject) (es ds : List SseEvent)
    → Incomplete es
    → EndsCompleted r ds
    → EndsCompleted r (es ++ ds)
unfolding EndsCompleted Incomplete
EndsCompleted-append r [] ds h k = k
EndsCompleted-append r (e ∷ []) [] h k = absurd k
EndsCompleted-append r (e ∷ []) (d ∷ ds) h k = (h.0, k)
EndsCompleted-append r (e ∷ c ∷ es) ds h k = (h.0, EndsCompleted-append r (c ∷ es) ds h.1 k)

deltas-Incomplete :
    (delta : ℕ → Text → SseEvent)
    → ((n : ℕ) (t : Text) → is_completed (delta n t) ≡ false)
    → (n : ℕ) (cs : List Text) (last : SseEvent) → is_completed last ≡ false
    → Incomplete (render_deltas delta n cs ++ (last ∷ []))
unfolding Incomplete
deltas-Incomplete delta h n [] last l = (l, tt)
deltas-Incomplete delta h n (c ∷ cs) last l = (h n c, deltas-Incomplete delta h (n + 1) cs last l)

item-Incomplete :
    (bytes n index : ℕ) (item : OutputItem) → Incomplete (render_item bytes n index item)
unfolding render_item Incomplete
item-Incomplete bytes n index (web_search_call id query) = (refl, (refl, tt))
item-Incomplete bytes n index (message id text) = (
  refl,
  deltas-Incomplete (λ n delta. text_delta n index id delta) (λ n t. refl) (n + 1)
      (split_utf8_chunks text bytes) _ refl,
)
item-Incomplete bytes n index (function_call id call_id name arguments) = (
  refl,
  deltas-Incomplete (λ n delta. arguments_delta n index id delta) (λ n t. refl) (n + 1)
      (split_utf8_chunks arguments bytes) _ refl,
)

items-EndsCompleted :
    (bytes n index : ℕ) (items : List OutputItem) (r : ResponseObject)
    → EndsCompleted r (render_items bytes n index items r)
unfolding render_items EndsCompleted
items-EndsCompleted bytes n index [] r = refl
items-EndsCompleted bytes n index (item ∷ items) r =
    EndsCompleted-append r (render_item bytes n index item) _ (item-Incomplete bytes n index item)
      (items-EndsCompleted bytes (n + length (render_item bytes n index item)) (suc index) items r)

passes :
    (e : SseEvent) (es : List SseEvent)
    → is_completed e ≡ false
    → reconstruct_object (e ∷ es) ≡ reconstruct_object es
unfolding reconstruct_object
passes e es h = ground (arith, h)

pub reconstruct_object-EndsCompleted :
    (r : ResponseObject) (es : List SseEvent) → EndsCompleted r es → reconstruct_object es ≡ some r
unfolding EndsCompleted reconstruct_object
reconstruct_object-EndsCompleted r [] h = absurd h
reconstruct_object-EndsCompleted r (e ∷ []) h = ap (λ (d : SseEvent). reconstruct_object (d ∷ [])) h
reconstruct_object-EndsCompleted r (e ∷ d ∷ es) h =
    passes e (d ∷ es) h.0 ∙ reconstruct_object-EndsCompleted r (d ∷ es) h.1

-- The stream of a response is numbered without a gap from zero, its last event is the completion with
-- the response's object, and no other event is a completion.
pub render_sse-AreNumbered :
    (a : AssembledResponse) (bytes : ℕ)
    → AreNumbered 0 (render_sse_with_chunk a bytes)
      × EndsCompleted (nonstreaming_object a) (render_sse_with_chunk a bytes)
unfolding render_sse_with_chunk AreNumbered Incomplete
render_sse-AreNumbered a bytes = (
  (refl, (refl, items-AreNumbered bytes 2 0 a.output (nonstreaming_object a))),
  EndsCompleted-append (nonstreaming_object a) (created 0 a.id ∷ in_progress 1 a.id ∷ []) _
      (two-Incomplete a.id) (items-EndsCompleted bytes 2 0 a.output (nonstreaming_object a)),
)
  where
    two-Incomplete : (id : Text) → Incomplete (created 0 id ∷ in_progress 1 id ∷ [])
    two-Incomplete id = (refl, (refl, tt))

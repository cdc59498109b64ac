-- ===== src/Websearch/History/Answered.antt =====
-- The calls and their results keep their ids, and a result stands behind its call.
use siderostat.Prelude.{
  Bool, true, false, not, ◌≡◌, refl, ap, sym, ◌∙◌, subst, Option, none, some, List, [], ◌∷◌, ◌++◌,
  map, if◌then◌else◌,
}
use mathlib.Core.List.{append-nil}
use siderostat.Websearch.{Text, ChatToolCall}
use siderostat.Websearch.History.{
  ContentItem, ResponseInputItem, message_item, function_call_item, custom_tool_call,
  function_call_output, custom_tool_call_output, unknown_call_id, unknown_custom_call_id, spoken,
  tool_message, reasoning, web_search_item, search, open_page, find_in_page, other_action,
  ChatMessage, RequestResult, ok, err, message_text, contains, convert_item, issues, followed_by,
  convert_items, to_chat_messages,
}

-- The calls of a message.
abbrev pub called : ChatMessage → List Text
called m = map (λ (c : ChatToolCall). c.id) m.tool_calls

abbrev listed : Option Text → List Text
listed none = []
listed (some id) = id ∷ []

-- The call that a message answers.
abbrev pub answered : ChatMessage → List Text
answered m = listed m.tool_call_id

-- The call of which an item is the result.
abbrev pub results : ResponseInputItem → List Text
results (function_call_output call_id output) = call_id ∷ []
results (custom_tool_call_output call_id output) = call_id ∷ []
results _ = []

abbrev pub all_of {ℓ} : {A : Type ℓ} → (A → List Text) → List A → List Text
all_of f [] = []
all_of f (x ∷ xs) = f x ++ all_of f xs

abbrev pub known : List Text → List Text → Bool
known issued [] = true
known issued (id ∷ ids) = contains issued id

-- A message that answers a call stands behind the message of that call.
abbrev pub AreAnswers : List Text → List ChatMessage → Type 0
AreAnswers issued [] = Unit
AreAnswers issued (m ∷ ms) = (known issued (answered m) ≡ true) × AreAnswers (issued ++ called m) ms

-- What an item is to become: its call, or the result of a call that was issued.
abbrev IsKept : List Text → ResponseInputItem → RequestResult (Option ChatMessage) → Type 0
IsKept issued item (err e) = Unit
IsKept issued item (ok none) = (issues item ≡ []) × (results item ≡ [])
IsKept issued item (ok (some m)) =
    (called m ≡ issues item) × (answered m ≡ results item) × (known issued (answered m) ≡ true)

abbrev AreKept : List Text → List ResponseInputItem → RequestResult (List ChatMessage) → Type 0
AreKept issued items (err e) = Unit
AreKept issued items (ok ms) =
    (all_of called ms ≡ all_of issues items)
    × (all_of answered ms ≡ all_of results items)
    × AreAnswers issued ms

spoken-IsKept :
    (issued : List Text) (role : Text) (content : List ContentItem)
    → IsKept issued (message_item role content) (convert_item issued (message_item role content))
unfolding convert_item
spoken-IsKept issued role content = read (message_text content)
  where
    read : (r : RequestResult Text) → IsKept issued (message_item role content) (spoken role r)
    read (ok text) = (refl, refl, refl)
    read (err e) = tt

convert_item-IsKept :
    (issued : List Text) (item : ResponseInputItem) → IsKept issued item (convert_item issued item)
unfolding convert_item
convert_item-IsKept issued (message_item role content) = spoken-IsKept issued role content
convert_item-IsKept issued (function_call_item name arguments call_id) = (refl, refl, refl)
convert_item-IsKept issued (custom_tool_call name input call_id) = (refl, refl, refl)
convert_item-IsKept issued (function_call_output call_id output) =
    given (contains issued call_id) refl
  where
    given :
        (b : Bool)
        → contains issued call_id ≡ b
        → IsKept issued (function_call_output call_id output) (
            if not b
            then err (unknown_call_id call_id)
            else ok (some (tool_message call_id output)))
    given true h = (refl, refl, h)
    given false h = tt
convert_item-IsKept issued (custom_tool_call_output call_id output) =
    given (contains issued call_id) refl
  where
    given :
        (b : Bool)
        → contains issued call_id ≡ b
        → IsKept issued (custom_tool_call_output call_id output) (
            if not b
            then err (unknown_custom_call_id call_id)
            else ok (some (tool_message call_id output)))
    given true h = (refl, refl, h)
    given false h = tt
convert_item-IsKept issued (reasoning (some encrypted)) = tt
convert_item-IsKept issued (reasoning none) = (refl, refl)
convert_item-IsKept issued (web_search_item (some search)) = (refl, refl, refl)
convert_item-IsKept issued (web_search_item (some open_page)) = tt
convert_item-IsKept issued (web_search_item (some find_in_page)) = tt
convert_item-IsKept issued (web_search_item (some other_action)) = tt
convert_item-IsKept issued (web_search_item none) = tt

followed_by-AreKept :
    (issued : List Text) (item : ResponseInputItem) (items : List ResponseInputItem)
    (a : RequestResult (Option ChatMessage)) (b : RequestResult (List ChatMessage))
    → IsKept issued item a
    → AreKept (issued ++ issues item) items b
    → AreKept issued (item ∷ items) (followed_by a b)
followed_by-AreKept issued item items (err e) b ha hb = tt
followed_by-AreKept issued item items (ok m) (err e) ha hb = tt
followed_by-AreKept issued item items (ok none) (ok ms) ha hb = (
  hb.0 ∙ ap (λ l. l ++ all_of issues items) (sym ha.0),
  hb.1 ∙ ap (λ l. l ++ all_of results items) (sym ha.1),
  subst (λ l. AreAnswers l ms) (ap (λ l. issued ++ l) ha.0 ∙ append-nil issued) hb.2,
)
followed_by-AreKept issued item items (ok (some m)) (ok ms) ha hb = (
  ap (λ l. l ++ all_of called ms) ha.0 ∙ ap (λ l. issues item ++ l) hb.0,
  ap (λ l. l ++ all_of answered ms) ha.1 ∙ ap (λ l. results item ++ l) hb.1,
  (ha.2, subst (λ l. AreAnswers (issued ++ l) ms) (sym ha.0) hb.2),
)

convert_items-AreKept :
    (issued : List Text) (items : List ResponseInputItem)
    → AreKept issued items (convert_items issued items)
convert_items-AreKept issued [] = (refl, refl, tt)
convert_items-AreKept issued (item ∷ items) =
    followed_by-AreKept issued item items (convert_item issued item)
      (convert_items (issued ++ issues item) items) (convert_item-IsKept issued item)
      (convert_items-AreKept (issued ++ issues item) items)

-- When a history is accepted, its messages carry the ids of its calls in the order of the calls, and
-- the ids of the results in the order of the results, none lost and none added; and each message with
-- a result stands behind a message with the call that it answers.
pub to_chat_messages-ids_kept :
    (items : List ResponseInputItem) (ms : List ChatMessage)
    → to_chat_messages items ≡ ok ms
    → (all_of called ms ≡ all_of issues items)
      × (all_of answered ms ≡ all_of results items)
      × AreAnswers [] ms
unfolding to_chat_messages
to_chat_messages-ids_kept items ms h = subst (AreKept [] items) h (convert_items-AreKept [] items)

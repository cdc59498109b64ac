-- ===== src/Websearch.antt =====
-- src/websearch: the response of the bridge and the events that carry it. A text is its bytes; an item's
-- id is its number.
pub mod Chunks
pub mod History
pub mod Sse
use siderostat.Prelude.{ℕ, suc, List, [], ◌∷◌, ◌++◌, map}

abbrev pub Text : Type 0
Text = List ℕ

pub data OutputItem : Type 0 where
  web_search_call : ℕ → Text → OutputItem  -- id, query
  message : ℕ → Text → OutputItem  -- id, text
  function_call : ℕ → Text → Text → Text → OutputItem  -- id, call_id, name, arguments

pub record AssembledResponse : Type 0 where
  pub id : Text
  pub output : List OutputItem
  pub model_turns : ℕ

pub record ChatToolCall : Type 0 where
  pub id : Text
  pub name : Text
  pub arguments : Text

-- What `assemble` reads of an `EngineOutcome`.
pub record EngineOutcome : Type 0 where
  pub text : Text
  pub search_queries : List Text
  pub model_turns : ℕ
  pub client_calls : List ChatToolCall

abbrev with_message : ℕ → Text → List OutputItem
with_message n text = message n text ∷ []

abbrev with_calls : ℕ → List ChatToolCall → Text → List OutputItem
with_calls n [] text = with_message n text
with_calls n (c ∷ cs) text = function_call n c.id c.name c.arguments ∷ with_calls (suc n) cs text

-- The items in their order, numbered from `n`.
abbrev pub items_from : ℕ → List Text → List ChatToolCall → Text → List OutputItem
items_from n [] calls text = with_calls n calls text
items_from n (q ∷ qs) calls text = web_search_call n q ∷ items_from (suc n) qs calls text

unfoldable pub assemble : EngineOutcome → Text → AssembledResponse
assemble outcome response_id = record {
  id = response_id;
  output = items_from 0 outcome.search_queries outcome.client_calls outcome.text;
  model_turns = outcome.model_turns;
}

-- The JSON of an item: a search that has started has no query yet.
pub data ItemJson : Type 0 where
  search_started : ℕ → ItemJson
  search_completed : ℕ → Text → ItemJson
  message_json : ℕ → Text → ItemJson
  call_json : ℕ → Text → Text → Text → ItemJson

unfoldable pub output_item_to_json : OutputItem → ItemJson
output_item_to_json (web_search_call id query) = search_completed id query
output_item_to_json (message id text) = message_json id text
output_item_to_json (function_call id call_id name arguments) = call_json id call_id name arguments

-- The `nonstreaming_object`; its usage is always zero.
pub record ResponseObject : Type 0 where
  pub id : Text
  pub output : List ItemJson
  pub model_turns : ℕ

unfoldable pub nonstreaming_object : AssembledResponse → ResponseObject
nonstreaming_object a = record {
  id = a.id;
  output = map output_item_to_json a.output;
  model_turns = a.model_turns;
}

-- ===== src/Websearch/History.antt =====
-- src/websearch/history.rs: the items of a request and the chat messages that are made of them. A
-- JSON value is what is read of it, and an error is the case that writes its text.
pub mod Answered
use siderostat.Prelude.{
  ℕ, Bool, true, false, not, ◌||◌, Option, none, some, List, [], ◌∷◌, ◌++◌, if◌then◌else◌,
  same_bytes,
}
use siderostat.Websearch.{Text, ChatToolCall}

pub data ContentItem : Type 0 where
  input_text output_text input_image input_audio : Text → ContentItem

pub data WebSearchAction : Type 0 where
  search open_page find_in_page other_action : WebSearchAction

-- The `output` of a call: a string, an array with the texts of its items, or another value as
-- serde_json prints it.
pub data OutputValue : Type 0 where
  string_value : Text → OutputValue
  array_value : List (Option Text) → OutputValue
  other_value : Text → OutputValue

pub data ResponseInputItem : Type 0 where
  message_item : Text → List ContentItem → ResponseInputItem  -- role, content
  function_call_item : Text → Text → Text → ResponseInputItem  -- name, arguments, call_id
  custom_tool_call : Text → Text → Text → ResponseInputItem  -- name, input, call_id
  function_call_output : Text → OutputValue → ResponseInputItem  -- call_id
  custom_tool_call_output : Text → OutputValue → ResponseInputItem
  reasoning : Option Text → ResponseInputItem  -- encrypted_content
  web_search_item : Option WebSearchAction → ResponseInputItem

pub record ChatMessage : Type 0 where
  pub role : Text
  pub content : Text
  pub tool_calls : List ChatToolCall
  pub tool_call_id : Option Text

-- The texts of `BadRequest`.
pub data RequestError : Type 0 where
  image_or_audio encrypted_reasoning unsupported_action reserved_tool_name : RequestError
  unknown_call_id unknown_custom_call_id : Text → RequestError

pub data RequestResult (A : Type 0) : Type 0 where
  ok : A → RequestResult A
  err : RequestError → RequestResult A

-- "assistant", "tool" and "[web search performed]".
abbrev pub assistant : Text
assistant = 97 ∷ 115 ∷ 115 ∷ 105 ∷ 115 ∷ 116 ∷ 97 ∷ 110 ∷ 116 ∷ []

abbrev tool : Text
tool = 116 ∷ 111 ∷ 111 ∷ 108 ∷ []

abbrev pub search_performed : Text
search_performed =
    91 ∷ 119 ∷ 101 ∷ 98 ∷ 32 ∷ 115 ∷ 101 ∷ 97 ∷ 114 ∷ 99 ∷ 104 ∷ 32 ∷ 112 ∷ 101 ∷ 114 ∷ 102 ∷ 111
    ∷ 114 ∷ 109 ∷ 101 ∷ 100 ∷ 93 ∷ []

-- A further text stands on a line of its own.
abbrev joined : Text → Text → Text
joined [] more = more
joined (b ∷ bs) more = (b ∷ bs) ++ 10 ∷ more

abbrev text_from : Text → List ContentItem → RequestResult Text
text_from text [] = ok text
text_from text (input_text t ∷ parts) = text_from (joined text t) parts
text_from text (output_text t ∷ parts) = text_from (joined text t) parts
text_from text (input_image url ∷ parts) = err image_or_audio
text_from text (input_audio url ∷ parts) = err image_or_audio

unfoldable pub message_text : List ContentItem → RequestResult Text
message_text content = text_from [] content

abbrev texts_from : Text → List (Option Text) → Text
texts_from text [] = text
texts_from text (none ∷ items) = texts_from text items
texts_from text (some t ∷ items) = texts_from (joined text t) items

unfoldable pub output_to_text : OutputValue → Text
output_to_text (string_value s) = s
output_to_text (array_value items) = texts_from [] items
output_to_text (other_value s) = s

abbrev pub contains : List Text → Text → Bool
contains [] id = false
contains (t ∷ ts) id = same_bytes t id || contains ts id

abbrev pub plain_message : Text → Text → ChatMessage
plain_message role content = record {
  role = role;
  content = content;
  tool_calls = [];
  tool_call_id = none;
}

abbrev pub call_message : Text → Text → Text → ChatMessage
call_message name arguments call_id = record {
  role = assistant;
  content = [];
  tool_calls = record { id = call_id; name = name; arguments = arguments } ∷ [];
  tool_call_id = none;
}

abbrev pub tool_message : Text → OutputValue → ChatMessage
tool_message call_id output = record {
  role = tool;
  content = output_to_text output;
  tool_calls = [];
  tool_call_id = some call_id;
}

abbrev pub spoken : Text → RequestResult Text → RequestResult (Option ChatMessage)
spoken role (ok text) = ok (some (plain_message role text))
spoken role (err e) = err e

-- An item makes a message, or none, or the request is refused.
unfoldable pub convert_item : List Text → ResponseInputItem → RequestResult (Option ChatMessage)
convert_item issued (message_item role content) = spoken role (message_text content)
convert_item issued (function_call_item name arguments call_id) =
    ok (some (call_message name arguments call_id))
convert_item issued (custom_tool_call name input call_id) =
    ok (some (call_message name input call_id))
convert_item issued (function_call_output call_id output) =
    if not (contains issued call_id)
    then err (unknown_call_id call_id)
    else ok (some (tool_message call_id output))
convert_item issued (custom_tool_call_output call_id output) =
    if not (contains issued call_id)
    then err (unknown_custom_call_id call_id)
    else ok (some (tool_message call_id output))
convert_item issued (reasoning (some encrypted)) = err encrypted_reasoning
convert_item issued (reasoning none) = ok none
convert_item issued (web_search_item (some search)) =
    ok (some (plain_message assistant search_performed))
convert_item issued (web_search_item (some open_page)) = err unsupported_action
convert_item issued (web_search_item (some find_in_page)) = err unsupported_action
convert_item issued (web_search_item (some other_action)) = err unsupported_action
convert_item issued (web_search_item none) = err unsupported_action

-- The calls that an item adds to the issued ones.
abbrev pub issues : ResponseInputItem → List Text
issues (function_call_item name arguments call_id) = call_id ∷ []
issues (custom_tool_call name input call_id) = call_id ∷ []
issues _ = []

abbrev pub followed_by :
    RequestResult (Option ChatMessage)
    → RequestResult (List ChatMessage)
    → RequestResult (List ChatMessage)
followed_by (err e) rest = err e
followed_by (ok m) (err e) = err e
followed_by (ok none) (ok ms) = ok ms
followed_by (ok (some m)) (ok ms) = ok (m ∷ ms)

abbrev pub convert_items : List Text → List ResponseInputItem → RequestResult (List ChatMessage)
convert_items issued [] = ok []
convert_items issued (item ∷ items) =
    followed_by (convert_item issued item) (convert_items (issued ++ issues item) items)

unfoldable pub to_chat_messages : List ResponseInputItem → RequestResult (List ChatMessage)
to_chat_messages items = convert_items [] items

pub data ResponseTool : Type 0 where
  web_search_tool : ResponseTool
  function_tool : Text → ResponseTool  -- name

-- "siderostat_web_search".
abbrev pub internal_search_tool_name : Text
internal_search_tool_name =
    115 ∷ 105 ∷ 100 ∷ 101 ∷ 114 ∷ 111 ∷ 115 ∷ 116 ∷ 97 ∷ 116 ∷ 95 ∷ 119 ∷ 101 ∷ 98 ∷ 95 ∷ 115 ∷ 101
    ∷ 97 ∷ 114 ∷ 99 ∷ 104 ∷ []

unfoldable pub check_tool_name_conflict : List ResponseTool → RequestResult Unit
check_tool_name_conflict [] = ok tt
check_tool_name_conflict (web_search_tool ∷ tools) = check_tool_name_conflict tools
check_tool_name_conflict (function_tool name ∷ tools) =
    let rest = check_tool_name_conflict tools in
    if same_bytes name internal_search_tool_name then err reserved_tool_name else rest

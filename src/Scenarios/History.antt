-- ===== src/Scenarios/History.antt =====
-- Tests of src/websearch/history.rs.
use siderostat.Prelude.{◌≡◌, refl, some, none, [], ◌∷◌, List}
use siderostat.Websearch.{Text}
use siderostat.Websearch.History.{
  ResponseInputItem, message_item, input_text, function_call_item, function_call_output,
  web_search_item, search, string_value, array_value, ChatMessage, ok, err, unknown_call_id,
  message_text, output_to_text, convert_item, to_chat_messages, plain_message, call_message,
  tool_message, assistant, search_performed, function_tool, internal_search_tool_name,
  check_tool_name_conflict, reserved_tool_name,
}
use siderostat.Websearch.History.Answered.{
  called, answered, all_of, AreAnswers, to_chat_messages-ids_kept,
}

abbrev user : Text
user = 117 ∷ 115 ∷ 101 ∷ 114 ∷ []

abbrev conversation : List ResponseInputItem
conversation =
    message_item user (input_text (104 ∷ []) ∷ input_text (105 ∷ []) ∷ [])
    ∷ web_search_item (some search)
    ∷ function_call_item (102 ∷ []) (123 ∷ 125 ∷ []) (99 ∷ 49 ∷ [])
    ∷ function_call_output (99 ∷ 49 ∷ [])
        (array_value (some (111 ∷ []) ∷ none ∷ some (107 ∷ []) ∷ []))
    ∷ []

abbrev messages : List ChatMessage
messages =
    plain_message user (104 ∷ 10 ∷ 105 ∷ [])
    ∷ plain_message assistant search_performed
    ∷ call_message (102 ∷ []) (123 ∷ 125 ∷ []) (99 ∷ 49 ∷ [])
    ∷ tool_message (99 ∷ 49 ∷ []) (string_value (111 ∷ 10 ∷ 107 ∷ []))
    ∷ []

conversation_converts : to_chat_messages conversation ≡ ok messages
unfolding to_chat_messages convert_item message_text output_to_text
conversation_converts = refl

to_chat_messages-ids_kept_example :
    (all_of called messages ≡ (99 ∷ 49 ∷ []) ∷ [])
    × (all_of answered messages ≡ (99 ∷ 49 ∷ []) ∷ [])
    × AreAnswers [] messages
to_chat_messages-ids_kept_example =
    to_chat_messages-ids_kept conversation messages conversation_converts

-- A result before its call.
early_result :
    to_chat_messages
      (function_call_output (99 ∷ []) (string_value []) ∷ function_call_item [] [] (99 ∷ []) ∷ [])
    ≡ err (unknown_call_id (99 ∷ []))
unfolding to_chat_messages convert_item
early_result = refl

reserved_name :
    check_tool_name_conflict (function_tool internal_search_tool_name ∷ []) ≡ err reserved_tool_name
unfolding check_tool_name_conflict
reserved_name = refl

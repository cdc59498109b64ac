-- ===== src/Scenarios/Search.antt =====
-- Tests of the stream of the web search bridge, src/websearch/sse.rs.
use siderostat.Prelude.{◌≡◌, refl, none, some, List, [], ◌∷◌, map}
use siderostat.Websearch.{AssembledResponse, EngineOutcome, assemble, nonstreaming_object}
use siderostat.Websearch.Chunks.{split_utf8_chunks, split, chunk_end, back_off}
use siderostat.Websearch.Chunks.Whole.{concat, AreSized, split_utf8_chunks_whole}
use siderostat.Websearch.Chunks.Characters.{
  AllContinue, Character, AllUtf8, encode, join, split_utf8_chunks_refines,
}
use siderostat.Websearch.Sse.{render_sse_with_chunk, render_failed, reconstruct_object}
use siderostat.Websearch.Sse.Numbered.{AreNumbered, EndsCompleted, render_sse-AreNumbered}
use siderostat.Websearch.Sse.Deltas.{collect, streamed_at, collect-render_sse}

-- A letter, a Japanese character of three bytes and a letter.
abbrev characters : List Character
characters =
    record { first = 97; others = [] }
    ∷ record { first = 230; others = 151 ∷ 165 ∷ [] }
    ∷ record { first = 98; others = [] }
    ∷ []

characters-AllUtf8 : AllUtf8 characters
unfolding AllUtf8 AllContinue
characters-AllUtf8 = (
  record { starts = refl; continue = tt; has_length = refl },
  (
    record { starts = refl; continue = (refl, (refl, tt)); has_length = refl },
    (record { starts = refl; continue = tt; has_length = refl }, tt),
  ),
)

-- The limit is less than the second character.
narrow_chunks :
    split_utf8_chunks (encode characters) 2 ≡ (97 ∷ []) ∷ (230 ∷ 151 ∷ 165 ∷ []) ∷ (98 ∷ []) ∷ []
unfolding split_utf8_chunks split chunk_end back_off
narrow_chunks = refl

split_utf8_chunks_whole_example :
    (concat (split_utf8_chunks (encode characters) 2) ≡ encode characters)
    × AreSized 2 (split_utf8_chunks (encode characters) 2)
split_utf8_chunks_whole_example = split_utf8_chunks_whole (encode characters) 2

split_utf8_chunks_refines_example :
    (css : List (List Character)) × ((split_utf8_chunks (encode characters) 2 ≡ map encode css)
      × (join css ≡ characters))
split_utf8_chunks_refines_example = split_utf8_chunks_refines characters 2 characters-AllUtf8

abbrev outcome : EngineOutcome
outcome = record {
  text = encode characters;
  search_queries = (113 ∷ []) ∷ [];
  model_turns = 2;
  client_calls = [];
}

abbrev assembled : AssembledResponse
assembled = assemble outcome (114 ∷ [])

render_sse-AreNumbered_example :
    AreNumbered 0 (render_sse_with_chunk assembled 2)
    × EndsCompleted (nonstreaming_object assembled) (render_sse_with_chunk assembled 2)
render_sse-AreNumbered_example = render_sse-AreNumbered assembled 2

collect-render_sse_example :
    (collect 1 (render_sse_with_chunk assembled 2) ≡ streamed_at 1 assembled.output)
    × (reconstruct_object (render_sse_with_chunk assembled 2)
        ≡ some (nonstreaming_object assembled))
collect-render_sse_example = collect-render_sse assembled 2 1

assembled_text : streamed_at 1 assembled.output ≡ encode characters
unfolding assemble
assembled_text = refl

failed_incomplete : reconstruct_object (render_failed (114 ∷ []) (101 ∷ []) (109 ∷ [])) ≡ none
unfolding reconstruct_object render_failed
failed_incomplete = refl

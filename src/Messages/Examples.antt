-- ===== src/Messages/Examples.antt =====
-- The theorems on messages at concrete ones.
use antigravity_server.Json.{null}
use antigravity_server.Messages.{
  ContentBlock, Message, array, merge_consecutive_messages, sort_thinking_blocks_first, string,
  text_block, thinking, tool_result, tool_use,
}
use antigravity_server.Messages.Alternating.{Merges, merge_consecutive_messages-Merges}
use antigravity_server.Messages.Stages.{Pointwise, sort_thinking_blocks_first-Pointwise}
use antigravity_server.Messages.Rounds.{ToolRound, identify_tool_rounds}
use antigravity_server.Messages.ToolLoops.{close_tool_loop_for_thinking}
use antigravity_server.Messages.ToolLoops.Closed.{Closes, close_tool_loop_for_thinking-Closes}
use antigravity_server.Prelude.Text.{Text-discrete, text}
use antigravity_server.Messages.Signatures.{filter_invalid_thinking_blocks_with_family}
use antigravity_server.Messages.Signatures.Repaired.{
  Repairs, filter_invalid_thinking_blocks_with_family-Repairs,
}
use antigravity_server.SignatureCache.{empty_cache}
use antigravity_server.Prelude.{some, map, List, [], ◌∷◌, ◌≡◌, none, refl}

abbrev call : ContentBlock
call = tool_use (text "t1") (text "ls") null none none

abbrev result : ContentBlock
result = tool_result (text "t1") null none

-- A call of a tool before its thinking, its result, and a reminder after that.
abbrev messages : List Message
messages =
    record {
      role = text "assistant";
      content = array (call ∷ text_block (text "a") ∷ thinking (text "why") none none ∷ []);
    }
    ∷ record { role = text "user"; content = array (result ∷ []) }
    ∷ record { role = text "user"; content = string (text "go on") }
    ∷ []

merge_consecutive_messages-Merges_example : Merges messages (merge_consecutive_messages messages)
merge_consecutive_messages-Merges_example = merge_consecutive_messages-Merges messages

sort_thinking_blocks_first-Pointwise_example :
    Pointwise messages (sort_thinking_blocks_first messages)
sort_thinking_blocks_first-Pointwise_example = sort_thinking_blocks_first-Pointwise messages

close_tool_loop_for_thinking-Closes_example :
    Closes messages (close_tool_loop_for_thinking messages)
close_tool_loop_for_thinking-Closes_example = close_tool_loop_for_thinking-Closes messages

merges_last :
    merge_consecutive_messages messages
    ≡ record {
      role = text "assistant";
      content = array (call ∷ text_block (text "a") ∷ thinking (text "why") none none ∷ []);
    }
      ∷ record { role = text "user"; content = array (result ∷ text_block (text "go on") ∷ []) }
      ∷ []
unfolding merge_consecutive_messages
merges_last = refl

finds_round : map (λ (r : ToolRound). r.indices) (identify_tool_rounds messages) ≡ (0 ∷ 1 ∷ []) ∷ []
unfolding identify_tool_rounds Text-discrete
finds_round = refl

filter_invalid_thinking_blocks_with_family-Repairs_example :
    let repair = filter_invalid_thinking_blocks_with_family empty_cache (some (text "claude")) in
    Repairs empty_cache (some (text "claude")) messages (repair messages)
    × (repair (repair messages) ≡ repair messages)
filter_invalid_thinking_blocks_with_family-Repairs_example =
    filter_invalid_thinking_blocks_with_family-Repairs empty_cache (some (text "claude")) messages

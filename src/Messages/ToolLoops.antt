-- ===== src/Messages/ToolLoops.antt =====
-- Tool loops that lost their thinking:
-- crates/antigravity-core/src/proxy/mappers/claude/thinking_utils.rs.
pub mod Closed
pub mod Split
use antigravity_server.Messages.{
  ContentBlock, Message, MessageContent, array, string, text_block, thinking, tool_result, tool_use,
}
use antigravity_server.Prelude.Text.{Text, Text-discrete, len, text}
use antigravity_server.Prelude.{
  ℕ, zero, suc, ◌+◌, Bool, true, false, not, ◌&&◌, ◌||◌, List, [], ◌∷◌, ◌++◌, Option, none, some,
  if◌then◌else◌, ite, leb, is_some, length,
}

pub record ConversationState : Type 0 where
  pub in_tool_loop : Bool
  pub interrupted_tool : Bool
  pub last_assistant_idx : Option ℕ

abbrev pub has_role : Text → Message → Bool
has_role role m = ite (Text-discrete m.role role) true false

-- Where the last message of a role stands, and the message.
unfoldable pub last_of_role : Text → List Message → Option (ℕ × Message)
unfolding Text-discrete
last_of_role role [] = none
last_of_role role (m ∷ ms) = elim (last_of_role role ms) [
  | some x ↦ some (suc x.0, x.1)
  | none ↦ if has_role role m then some (0, m) else none
]

unfoldable pub last : List Message → Option Message
last [] = none
last (m ∷ []) = some m
last (m ∷ n ∷ ms) = last (n ∷ ms)

unfoldable pub any_block : (ContentBlock → Bool) → List ContentBlock → Bool
any_block p [] = false
any_block p (b ∷ bs) = let rest = any_block p bs in p b || rest

abbrev pub any_in : (ContentBlock → Bool) → MessageContent → Bool
any_in p (array bs) = any_block p bs
any_in p (string s) = false

unfoldable pub is_tool_use : ContentBlock → Bool
is_tool_use (tool_use id name input s c) = true
is_tool_use _ = false

unfoldable pub is_tool_result : ContentBlock → Bool
is_tool_result (tool_result id c e) = true
is_tool_result _ = false

abbrev pub quiet : Option ℕ → ConversationState
quiet idx = record { in_tool_loop = false; interrupted_tool = false; last_assistant_idx = idx }

-- The state that the last message tells, after an assistant's call of a tool.
unfoldable pub after_tool_use : ℕ → Option Message → ConversationState
unfolding Text-discrete any_block is_tool_result
after_tool_use idx none = quiet (some idx)
after_tool_use idx (some m) =
    if has_role (text "user") m
    then (record {
      in_tool_loop = any_in is_tool_result m.content;
      interrupted_tool = not (any_in is_tool_result m.content);
      last_assistant_idx = some idx;
    })
    else quiet (some idx)

unfoldable pub state_after : Option (ℕ × Message) → Option Message → ConversationState
unfolding after_tool_use any_block is_tool_use
state_after none final = quiet none
state_after (some (idx, m)) final =
    if any_in is_tool_use m.content then after_tool_use idx final else quiet (some idx)

unfoldable pub analyze_conversation_state : List Message → ConversationState
unfolding state_after last_of_role last
analyze_conversation_state ms = state_after (last_of_role (text "assistant") ms) (last ms)

abbrev pub min_signature_length : ℕ
min_signature_length = 50

-- A thinking block with a text and a signature of the least length.
unfoldable pub is_valid_thinking : ContentBlock → Bool
unfolding len
is_valid_thinking (thinking [] signature c) = false
is_valid_thinking (thinking (t ∷ ts) none c) = false
is_valid_thinking (thinking (t ∷ ts) (some s) c) = leb min_signature_length (len s)
is_valid_thinking _ = false

unfoldable pub has_valid_thinking : Option (ℕ × Message) → Bool
unfolding is_valid_thinking any_block
has_valid_thinking none = false
has_valid_thinking (some (idx, m)) = any_in is_valid_thinking m.content

abbrev pub says : Text → Text → Message
says role s = record { role = role; content = array (text_block s ∷ []) }

-- `insert`, which puts a message at an index.
unfoldable pub insert_at : ℕ → Message → List Message → List Message
insert_at zero x ms = x ∷ ms
insert_at (suc i) x [] = x ∷ []
insert_at (suc i) x (m ∷ ms) = m ∷ insert_at i x ms

abbrev pub interrupted : Message
interrupted = says (text "assistant") (text "[Tool call was interrupted by user.]")

-- Two messages at the end close a loop; one after the assistant's closes an interrupted call.
unfoldable pub close_with : ConversationState → List Message → List Message
unfolding insert_at
close_with s ms =
    if s.in_tool_loop
    then ms
      ++ (says (text "assistant")
            (text "[System: Tool execution completed. Proceeding to final response.]")
          ∷ says (text "user")
              (text "Please provide the final result based on the tool output above.")
          ∷ [])
    else if s.interrupted_tool
    then elim s.last_assistant_idx [ some idx ↦ insert_at (suc idx) interrupted ms | none ↦ ms ]
    else ms

unfoldable pub close_tool_loop_for_thinking : List Message → List Message
unfolding analyze_conversation_state has_valid_thinking close_with
close_tool_loop_for_thinking ms =
    let s = analyze_conversation_state ms in
    if (s.in_tool_loop || s.interrupted_tool)
      && not (has_valid_thinking (last_of_role (text "assistant") ms))
    then close_with s ms
    else ms

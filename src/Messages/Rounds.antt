-- ===== src/Messages/Rounds.antt =====
-- The rounds of tool calls and results in a conversation:
-- crates/antigravity-core/src/proxy/mappers/context_manager/tool_rounds.rs.
pub mod Sound
use antigravity_server.Messages.ToolLoops.{any_block, any_in, has_role, is_tool_result, is_tool_use}
use antigravity_server.Messages.{Message}
use antigravity_server.Prelude.Text.{text}
use antigravity_server.Prelude.{ℕ, suc, List, [], ◌∷◌, ◌++◌, Option, none, some, if◌then◌else◌}

pub record ToolRound : Type 0 where
  pub assistant_index : ℕ
  pub tool_result_indices : List ℕ
  pub indices : List ℕ

abbrev pub pushed : Option ToolRound → List ToolRound
pushed none = []
pushed (some r) = r ∷ []

abbrev pub opened_at : ℕ → ToolRound
opened_at i = record { assistant_index = i; tool_result_indices = []; indices = i ∷ [] }

abbrev pub extended : ℕ → ToolRound → ToolRound
extended i r = record r {
  tool_result_indices = r.tool_result_indices ++ (i ∷ []);
  indices = r.indices ++ (i ∷ []);
}

unfoldable pub user_step : ℕ → Option ToolRound → Message → List ToolRound × Option ToolRound
unfolding any_block is_tool_result
user_step i none m = ([], none)
user_step i (some r) m =
    if any_in is_tool_result m.content then ([], some (extended i r)) else (r ∷ [], none)

-- The rounds that a message ends, and the round that is open after it.
unfoldable pub round_step : ℕ → Option ToolRound → Message → List ToolRound × Option ToolRound
unfolding user_step any_block is_tool_use
round_step i current m =
    if has_role (text "assistant") m
    then (if any_in is_tool_use m.content
        then (pushed current, some (opened_at i))
        else ([], current))
    else if has_role (text "user") m
    then user_step i current m
    else ([], current)

unfoldable pub rounds_from : ℕ → Option ToolRound → List Message → List ToolRound
unfolding round_step
rounds_from i current [] = pushed current
rounds_from i current (m ∷ ms) =
    let (ended, next) = round_step i current m in ended ++ rounds_from (suc i) next ms

unfoldable pub identify_tool_rounds : List Message → List ToolRound
unfolding rounds_from
identify_tool_rounds messages = rounds_from 0 none messages

-- ===== src/Messages.antt =====
-- The messages of a Claude request and the passes that make them acceptable to the API:
-- crates/antigravity-core/src/proxy/mappers/claude/request/message_cleaning.rs, over the types of
-- claude_models.rs and content_block.rs beside it (mappers/claude).
pub mod Alternating
pub mod Stages
pub mod Staging
pub mod ToolLoops
pub mod CacheControl
pub mod Rounds
pub mod Signatures
mod Examples
use antigravity_server.Json.{Json}
use antigravity_server.Prelude.Text.{Text, Text-discrete, text, trim}
use antigravity_server.Prelude.{
  ℕ, ◌≡◌, Bool, true, false, not, ◌&&◌, ◌||◌, ◌==◌, List, [], ◌∷◌, ◌++◌, map, Option, none, some,
  filter, if◌then◌else◌, ite, ltb, length,
}

-- `ImageSource` and `DocumentSource`, which have the same fields.
pub record Source : Type 0 where
  pub source_type : Text
  pub media_type : Text
  pub bytes : Text

pub data ContentBlock : Type 0 where
  text_block : Text → ContentBlock
  thinking : Text → (signature : Option Text) → (cache_control : Option Json) → ContentBlock
  image : Source → (cache_control : Option Json) → ContentBlock
  document : Source → (cache_control : Option Json) → ContentBlock
  redacted_thinking : Text → ContentBlock
  tool_use :
      (id name : Text)
      → Json
      → (signature : Option Text) → (cache_control : Option Json) → ContentBlock
  tool_result : (tool_use_id : Text) → Json → (is_error : Option Bool) → ContentBlock
  server_tool_use : (id name : Text) → Json → ContentBlock
  web_search_tool_result : (tool_use_id : Text) → Json → ContentBlock

pub data MessageContent : Type 0 where
  string : Text → MessageContent
  array : List ContentBlock → MessageContent

pub record Message : Type 0 where
  pub role : Text
  pub content : MessageContent

unfoldable pub map_blocks : (List ContentBlock → List ContentBlock) → Message → Message
map_blocks f m = record m {
  content = elim m.content [ string s ↦ string s | array bs ↦ array (f bs) ];
}

-- The four kinds of blocks that have the field lose it.
unfoldable pub clean_block : ContentBlock → ContentBlock
clean_block (thinking t signature c) = thinking t signature none
clean_block (image s c) = image s none
clean_block (document s c) = document s none
clean_block (tool_use id name input signature c) = tool_use id name input signature none
clean_block b = b

unfoldable pub clean_cache_control_from_messages : List Message → List Message
unfolding clean_block map_blocks
clean_cache_control_from_messages ms = map (map_blocks (map clean_block)) ms

-- The lists that a pass over the blocks fills, and the blocks that it leaves out.
pub data Stage : Type 0 where
  thinking_blocks text_blocks other_blocks tool_blocks left_out : Stage

abbrev pub place : Stage → ℕ
place thinking_blocks = 0
place text_blocks = 1
place other_blocks = 2
place tool_blocks = 3
place left_out = 4

is_blank : Text → Bool
unfolding trim
is_blank s = elim (trim s) [ [] ↦ true | c ∷ r ↦ false ]

unfoldable pub stage_of : ContentBlock → Stage
unfolding is_blank Text-discrete
stage_of (thinking t s c) = thinking_blocks
stage_of (redacted_thinking d) = thinking_blocks
stage_of (text_block s) =
    if not (is_blank s) && ite (Text-discrete s (text "(no content)")) false true
    then text_blocks
    else left_out
stage_of (tool_use id name input s c) = tool_blocks
stage_of _ = other_blocks

unfoldable pub is_thinking : ContentBlock → Bool
is_thinking (thinking t s c) = true
is_thinking (redacted_thinking d) = true
is_thinking _ = false

-- A thinking block comes after another one.
unfoldable pub needs_reorder : (saw_non_thinking : Bool) → List ContentBlock → Bool
unfolding is_thinking
needs_reorder saw [] = false
needs_reorder saw (b ∷ bs) =
    let rest = needs_reorder (saw || not (is_thinking b)) bs in (is_thinking b && saw) || rest

abbrev pub in_stage : Stage → List ContentBlock → List ContentBlock
in_stage s bs = filter (λ b. place (stage_of b) == place s) bs

unfoldable pub staged : List ContentBlock → List ContentBlock
unfolding stage_of filter
staged bs =
    in_stage thinking_blocks bs
    ++ (in_stage text_blocks bs ++ (in_stage other_blocks bs ++ in_stage tool_blocks bs))

unfoldable pub sort_blocks : List ContentBlock → List ContentBlock
unfolding needs_reorder staged
sort_blocks bs = if needs_reorder false bs || ltb 1 (length bs) then staged bs else bs

unfoldable pub sort_thinking_blocks_first : List Message → List Message
unfolding map_blocks sort_blocks Text-discrete
sort_thinking_blocks_first ms =
    map (λ m. ite (Text-discrete m.role (text "assistant")) (map_blocks sort_blocks m) m) ms

-- The contents of two messages of one role.
unfoldable pub join_contents : MessageContent → MessageContent → MessageContent
join_contents (array bs) (array cs) = array (bs ++ cs)
join_contents (array bs) (string s) = array (bs ++ (text_block s ∷ []))
join_contents (string r) (string s) = string (r ++ (10 ∷ 10 ∷ s))
join_contents (string r) (array cs) = array (text_block r ∷ cs)

unfoldable pub merge_from : Message → List Message → List Message
unfolding join_contents Text-discrete
merge_from current [] = current ∷ []
merge_from current (next ∷ rest) =
    let joined = record current { content = join_contents current.content next.content } in
    let same = Text-discrete current.role next.role in
    let merged = merge_from (ite same joined next) rest in ite same merged (current ∷ merged)

unfoldable pub merge_consecutive_messages : List Message → List Message
unfolding merge_from
merge_consecutive_messages [] = []
merge_consecutive_messages (current ∷ messages) = merge_from current messages

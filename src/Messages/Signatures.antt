-- ===== src/Messages/Signatures.antt =====
-- The signatures of thinking blocks that another model has made, over the cache of signatures:
-- crates/antigravity-core/src/proxy/mappers/claude/thinking_utils.rs.
pub mod Repaired
use antigravity_server.Messages.{
  ContentBlock, Message, MessageContent, array, map_blocks, string, thinking, text_block, image,
  document, redacted_thinking, tool_use, tool_result, server_tool_use, web_search_tool_result,
}
use antigravity_server.SignatureCache.{SignatureCache, get_signature_family}
use antigravity_server.Prelude.Text.{Text, Text-discrete, len, text}
use antigravity_server.Prelude.{
  ℕ, ◌≡◌, refl, sym, ap, ap₂, ◌∙◌, subst, Bool, Bool-cases, true, false, not, ◌&&◌, List, [], ◌∷◌,
  Option, none, some, if◌then◌else◌, ite, if_pos, if_neg, leb, inl, inr, map,
}

abbrev pub dummy_signature : Text
dummy_signature = text "skip_thought_signature_validator"

-- The family that made a signature is known and is not the target.
unfoldable pub is_incompatible : Option Text → Option Text → Bool
unfolding Text-discrete
is_incompatible none origin = false
is_incompatible (some target) none = false
is_incompatible (some target) (some origin) = ite (Text-discrete origin target) false true

abbrev pub is_dummy : Text → Bool
is_dummy s = ite (Text-discrete s dummy_signature) true false

module _ (cache : SignatureCache) (target_family : Option Text) where
  unfoldable pub needs_fix : Option Text → Bool
  unfolding is_incompatible get_signature_family len
  needs_fix none = true
  needs_fix (some s) =
      if leb 50 (len s) && not (is_dummy s)
      then is_incompatible target_family (get_signature_family cache s)
      else not (is_dummy s)

  unfoldable pub fixed_signature : Option Text → Option Text
  unfolding needs_fix
  fixed_signature s = if needs_fix s then some dummy_signature else s

  unfoldable pub fix_block : ContentBlock → ContentBlock
  unfolding fixed_signature
  fix_block (thinking t s c) = thinking t (fixed_signature s) c
  fix_block b = b

  unfoldable pub filter_invalid_thinking_blocks_with_family : List Message → List Message
  unfolding fix_block map_blocks
  filter_invalid_thinking_blocks_with_family ms =
      map (λ m. ite (Text-discrete m.role (text "assistant")) (map_blocks (map fix_block) m) m) ms

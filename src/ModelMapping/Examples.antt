-- ===== src/ModelMapping/Examples.antt =====
-- The theorems on the names of models at concrete names.
use antigravity_server.ModelMapping.{
  by_words, claude_to_gemini, generate_image_model_variants, map_claude_model_to_gemini,
  normalize_to_standard_id,
}
use antigravity_server.ModelMapping.Normal.{OneOf, normalize_to_standard_id-twice, standard_ids}
use antigravity_server.Prelude.Map.{lookup, text_key}
use antigravity_server.Prelude.Text.{Text, Text-discrete, contains, starts_with, text}
use antigravity_server.Prelude.{◌≡◌, length, refl, some}

abbrev same_case : Text → Text
same_case s = s

opus :
    normalize_to_standard_id same_case (text "claude-opus-4-6")
    ≡ some (text "claude-opus-4-5-thinking")
unfolding normalize_to_standard_id by_words claude_to_gemini lookup Text-discrete starts_with
    contains
opus = refl

-- A haiku whose id of quota protection is that of a Gemini model.
haiku : normalize_to_standard_id same_case (text "claude-haiku-4-5") ≡ some (text "gemini-3-flash")
unfolding normalize_to_standard_id by_words claude_to_gemini lookup Text-discrete starts_with
    contains
haiku = refl

variants : length generate_image_model_variants ≡ 21
unfolding generate_image_model_variants
variants = refl

normalize_to_standard_id-twice_example :
    OneOf (text "claude-opus-4-5-thinking") standard_ids
    × (normalize_to_standard_id same_case (text "claude-opus-4-5-thinking")
        ≡ some (text "claude-opus-4-5-thinking"))
normalize_to_standard_id-twice_example =
    normalize_to_standard_id-twice same_case (text "claude-opus-4-6")
      (text "claude-opus-4-5-thinking") (λ s e. refl) opus

gpt : map_claude_model_to_gemini (text "gpt-4") ≡ some (text "gemini-2.5-flash")
unfolding map_claude_model_to_gemini claude_to_gemini lookup Text-discrete
gpt = refl

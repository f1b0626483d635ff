-- ===== src/ModelMapping.antt =====
-- The names of the models: crates/antigravity-core/src/proxy/common/model_mapping.rs.
-- `lowercase` is `str::to_lowercase`.
pub mod Normal
mod Examples
use antigravity_server.Prelude.Map.{Map, lookup, text_key}
use antigravity_server.Prelude.Text.{Text, Text-discrete, text, starts_with, contains}
use antigravity_server.Prelude.{
  ℕ, ◌+◌, Bool, true, false, ◌&&◌, ◌||◌, Option, none, some, List, [], ◌∷◌, ◌++◌, ite, leb, ltb,
  suc, zero, if◌then◌else◌, is_some, map,
}

unfoldable pub claude_to_gemini : Map Text Text
claude_to_gemini =
    (text "claude-opus-4-5-thinking", text "claude-opus-4-5-thinking")
    ∷ (text "claude-sonnet-4-5", text "claude-sonnet-4-5")
    ∷ (text "claude-sonnet-4-5-thinking", text "claude-sonnet-4-5-thinking")
    ∷ (text "claude-sonnet-4-5-20250929", text "claude-sonnet-4-5-thinking")
    ∷ (text "claude-3-5-sonnet-20241022", text "claude-sonnet-4-5")
    ∷ (text "claude-3-5-sonnet-20240620", text "claude-sonnet-4-5")
    ∷ (text "claude-opus-4", text "claude-opus-4-5-thinking")
    ∷ (text "claude-opus-4-5", text "claude-opus-4-5-thinking")
    ∷ (text "claude-opus-4-5-20251101", text "claude-opus-4-5-thinking")
    ∷ (text "claude-opus-4-6", text "claude-opus-4-6-thinking")
    ∷ (text "claude-opus-4-6-thinking", text "claude-opus-4-6-thinking")
    ∷ (text "claude-opus-4-6-20260201", text "claude-opus-4-6-thinking")
    ∷ (text "claude-haiku-4", text "claude-sonnet-4-5")
    ∷ (text "claude-haiku-4-5", text "gemini-3-flash")
    ∷ (text "claude-3-haiku-20240307", text "claude-sonnet-4-5")
    ∷ (text "claude-haiku-4-5-20251001", text "claude-sonnet-4-5")
    ∷ (text "gpt-4", text "gemini-2.5-flash")
    ∷ (text "gpt-4-turbo", text "gemini-2.5-flash")
    ∷ (text "gpt-4-turbo-preview", text "gemini-2.5-flash")
    ∷ (text "gpt-4-0125-preview", text "gemini-2.5-flash")
    ∷ (text "gpt-4-1106-preview", text "gemini-2.5-flash")
    ∷ (text "gpt-4-0613", text "gemini-2.5-flash")
    ∷ (text "gpt-4o", text "gemini-2.5-flash")
    ∷ (text "gpt-4o-2024-05-13", text "gemini-2.5-flash")
    ∷ (text "gpt-4o-2024-08-06", text "gemini-2.5-flash")
    ∷ (text "gpt-4o-mini", text "gemini-2.5-flash")
    ∷ (text "gpt-4o-mini-2024-07-18", text "gemini-2.5-flash")
    ∷ (text "gpt-3.5-turbo", text "gemini-2.5-flash")
    ∷ (text "gpt-3.5-turbo-16k", text "gemini-2.5-flash")
    ∷ (text "gpt-3.5-turbo-0125", text "gemini-2.5-flash")
    ∷ (text "gpt-3.5-turbo-1106", text "gemini-2.5-flash")
    ∷ (text "gpt-3.5-turbo-0613", text "gemini-2.5-flash")
    ∷ (text "gemini-2.5-flash-lite", text "gemini-2.5-flash-lite")
    ∷ (text "gemini-2.5-flash-thinking", text "gemini-2.5-flash-thinking")
    ∷ (text "gemini-3-pro-low", text "gemini-3-pro-preview")
    ∷ (text "gemini-3-pro-high", text "gemini-3-pro-preview")
    ∷ (text "gemini-3-pro-preview", text "gemini-3-pro-preview")
    ∷ (text "gemini-3-pro", text "gemini-3-pro-preview")
    ∷ (text "gemini-2.5-flash", text "gemini-2.5-flash")
    ∷ (text "gemini-3-flash", text "gemini-3-flash")
    ∷ (text "gemini-3-flash-high", text "gemini-3-flash")
    ∷ (text "gemini-3-flash-preview", text "gemini-3-flash")
    ∷ (text "gemini-3-pro-image", text "gemini-3-pro-image")
    ∷ (text "internal-background-task", text "gemini-2.5-flash")
    ∷ (text "gemini-2.0-flash", text "gemini-2.5-flash")
    ∷ (text "gemini-2.0-flash-exp", text "gemini-2.5-flash")
    ∷ (text "gemini-2.0-flash-lite", text "gemini-2.5-flash-lite")
    ∷ (text "gemini-2.0-pro", text "gemini-2.5-flash")
    ∷ (text "gemini-2.0-pro-exp", text "gemini-2.5-flash")
    ∷ (text "gemini-1.5-pro", text "gemini-2.5-flash")
    ∷ (text "gemini-1.5-pro-latest", text "gemini-2.5-flash")
    ∷ (text "gemini-1.5-flash", text "gemini-2.5-flash")
    ∷ (text "gemini-1.5-flash-latest", text "gemini-2.5-flash")
    ∷ []

unfoldable pub passes_through : Text → Bool
unfolding starts_with contains
passes_through input = starts_with input (text "gemini-") || contains input (text "thinking")

-- A name of the table, or one that is passed on as it is.
unfoldable pub map_claude_model_to_gemini : Text → Option Text
unfolding passes_through
map_claude_model_to_gemini input = elim (lookup input claude_to_gemini) [
  | some mapped ↦ some mapped
  | none ↦ if passes_through input then some input else none
]

unfoldable pub get_supported_models : List Text
unfolding claude_to_gemini
get_supported_models = map (λ b. b.0) claude_to_gemini

abbrev pub resolutions : List Text
resolutions = [] ∷ text "-2k" ∷ text "-4k" ∷ []

abbrev pub ratios : List Text
ratios =
    [] ∷ text "-1x1" ∷ text "-4x3" ∷ text "-3x4" ∷ text "-16x9" ∷ text "-9x16" ∷ text "-21x9" ∷ []

variants_of : Text → List Text → List Text → List Text
variants_of base [] ratio_list = []
variants_of base (res ∷ rest) ratio_list =
    map (λ ratio. base ++ (res ++ ratio)) ratio_list ++ variants_of base rest ratio_list

unfoldable pub generate_image_model_variants : List Text
unfolding variants_of
generate_image_model_variants = variants_of (text "gemini-3-pro-image") resolutions ratios

abbrev pub max_depth : ℕ
max_depth = 5

-- The standard id by the words of a name in lower case.
unfoldable pub by_words : Text → Option Text
unfolding Text-discrete starts_with contains
by_words lower =
    if ite (Text-discrete lower (text "gemini-3-flash")) true false
      || starts_with lower (text "gemini-3-flash-")
    then some (text "gemini-3-flash")
    else if starts_with lower (text "gemini-3-pro")
    then some (text "gemini-3-pro-high")
    else if contains lower (text "opus")
    then some (text "claude-opus-4-5-thinking")
    else if contains lower (text "sonnet") && contains lower (text "thinking")
    then some (text "claude-sonnet-4-5-thinking")
    else if contains lower (text "sonnet") || contains lower (text "haiku")
    then some (text "claude-sonnet-4-5")
    else none

module _ (lowercase : Text → Text) where
  -- `left` is one more than the depth that is left: `max_depth - depth + 1`.
  unfoldable pub normalize_to_standard_id_with_depth : Text → (left : ℕ) → Option Text
  unfolding by_words Text-discrete
  normalize_to_standard_id_with_depth model_name zero = none
  normalize_to_standard_id_with_depth model_name (suc left) =
      elim (lookup model_name claude_to_gemini) [
        | none ↦ by_words (lowercase model_name)
        | some mapped ↦
            let deeper = normalize_to_standard_id_with_depth mapped left in
            ite (Text-discrete mapped model_name) (by_words (lowercase model_name)) deeper
      ]

  unfoldable pub normalize_to_standard_id : Text → Option Text
  unfolding normalize_to_standard_id_with_depth
  normalize_to_standard_id model_name =
      normalize_to_standard_id_with_depth model_name (max_depth + 1)

-- ===== src/Messages/Stages.antt =====
-- The order of the blocks of a message.
use antigravity_server.Messages.{
  is_blank, thinking, redacted_thinking, image, document, tool_result, server_tool_use,
  web_search_tool_result, tool_use, text_block, ContentBlock, Message, MessageContent, Stage, array,
  in_stage, left_out, map_blocks, other_blocks, place, sort_blocks, sort_thinking_blocks_first,
  stage_of, staged, string, text_blocks, thinking_blocks, tool_blocks, needs_reorder,
}
use antigravity_server.Prelude.Text.{Text, Text-discrete, text, trim}
use antigravity_server.Prelude.{
  not, ◌&&◌, ◌⊎◌, if◌then◌else◌, ℕ, ◌≡◌, ◌≢◌, ◌≤◌, ◌<◌, refl, sym, ◌∙◌, subst, Bool, true, false,
  List, [], ◌∷◌, Bool-cases, inl, inr, ◌==◌, All, All-append, suc, zero, All-map, filter,
  filter-All, ◌||◌, ltb, length, arith, ite, if_pos, if_neg,
}
use antigravity_server.Messages.Staging.{
  IsPlaced, at_place, filter_same, staged-IsPlaced, staged-keeps,
}

-- The order of the kinds of blocks: thinking, text, others, calls of tools.
abbrev pub rank : ContentBlock → ℕ
rank (thinking t s c) = 0
rank (redacted_thinking d) = 0
rank (text_block s) = 1
rank (image s c) = 2
rank (document s c) = 2
rank (tool_result id v e) = 2
rank (server_tool_use id name v) = 2
rank (web_search_tool_result id v) = 2
rank (tool_use id name v s c) = 3

abbrev pub IsRanked : List ContentBlock → Type 0
IsRanked [] = Unit
IsRanked (b ∷ bs) = All (λ c. rank b ≤ rank c) bs × IsRanked bs

abbrev is_nonempty : Text → Bool
is_nonempty [] = false
is_nonempty (c ∷ s) = true

-- A text that is not blank and does not say that there is no content.
unfoldable pub is_shown : ContentBlock → Bool
unfolding trim Text-discrete
is_shown (text_block s) =
    is_nonempty (trim s) && ite (Text-discrete s (text "(no content)")) false true
is_shown _ = false

-- A block that is left out is a text that is not shown; another one has the place of its rank, and
-- is shown exactly if it is a text.
abbrev Placed : ContentBlock → Type 0
Placed b =
    ((place (stage_of b) ≡ 4) × (rank b ≡ 1) × (is_shown b ≡ false))
    ⊎ ((place (stage_of b) ≡ rank b) × (is_shown b ≡ (rank b == 1)))

blank_or_not : (s : Text) → not (is_blank s) ≡ is_nonempty (trim s)
unfolding is_blank
blank_or_not s = cases (trim s)
  where
    cases : (t : Text) → not (elim t [ [] ↦ true | c ∷ r ↦ false ]) ≡ is_nonempty t
    cases [] = refl
    cases (c ∷ r) = refl

text_place :
    (shown : Bool)
    → let s = if shown then text_blocks else left_out in
      ((place s ≡ 4) × (◌≡◌ {A = ℕ} 1 1) × (shown ≡ false)) ⊎ ((place s ≡ 1) × (shown ≡ true))
text_place true = inr (refl, refl)
text_place false = inl (refl, refl, refl)

placed : (b : ContentBlock) → Placed b
unfolding stage_of is_shown
placed (thinking t s c) = inr (refl, refl)
placed (redacted_thinking d) = inr (refl, refl)
placed (image s c) = inr (refl, refl)
placed (document s c) = inr (refl, refl)
placed (tool_result id v e) = inr (refl, refl)
placed (server_tool_use id name v) = inr (refl, refl)
placed (web_search_tool_result id v) = inr (refl, refl)
placed (tool_use id name v s c) = inr (refl, refl)
placed (text_block s) =
    rw (blank_or_not s)
      (text_place (is_nonempty (trim s) && ite (Text-discrete s (text "(no content)")) false true))

rank_le :
    (b : ContentBlock)
    → place (stage_of b) < 4
    → (bs : List ContentBlock) → All (λ c. place (stage_of c) < 4) bs
    → All (λ c. place (stage_of b) ≤ place (stage_of c)) bs
    → All (λ c. rank b ≤ rank c) bs
rank_le b le [] a h = tt
rank_le b le (c ∷ bs) a h =
    let hb = placed b in let hc = placed c in (ground arith, rank_le b le bs a.1 h.1)

rank_test : (n : ℕ) (b : ContentBlock) → n < 4 → n ≢ 1 → (rank b == n) ≡ (place (stage_of b) == n)
rank_test n b le d = let h = placed b in ground arith

shown_test : (b : ContentBlock) → is_shown b ≡ (place (stage_of b) == 1)
shown_test b = elim (placed b) [ inl (p, r, f) ↦ ground arith | inr (p, e) ↦ ground arith ]

IsPlaced-IsRanked :
    (bs : List ContentBlock) → All (λ b. place (stage_of b) < 4) bs → IsPlaced bs → IsRanked bs
IsPlaced-IsRanked [] a h = tt
IsPlaced-IsRanked (b ∷ bs) a h = (rank_le b a.0 bs a.1 h.0, IsPlaced-IsRanked bs a.1 h.1)

-- What a sorted list of more than one block, or the list of one, keeps of the list before.
pub record Sorts (bs out : List ContentBlock) : Type 0 where
  pub ranked : IsRanked out
  pub kept : (n : ℕ) → n < 4 → n ≢ 1 → filter (λ b. rank b == n) out ≡ filter (λ b. rank b == n) bs
  pub texts : filter is_shown out ≡ filter is_shown bs
  pub only_shown : 1 < length bs → All (λ b. rank b ≡ 1 → is_shown b ≡ true) out

stage_at : (n : ℕ) → n < 4 → (s : Stage) × (place s ≡ n)
stage_at zero le = (thinking_blocks, refl)
stage_at (suc zero) le = (text_blocks, refl)
stage_at (suc (suc zero)) le = (other_blocks, refl)
stage_at (suc (suc (suc zero))) le = (tool_blocks, refl)
stage_at (suc (suc (suc (suc n)))) le = absurd (omega arith)

kept_at :
    (n : ℕ) (bs : List ContentBlock)
    → n < 4
    → filter (λ b. place (stage_of b) == n) (staged bs) ≡ filter (λ b. place (stage_of b) == n) bs
kept_at n bs le =
    let (s, e) = stage_at n le in
    subst
      (λ k.
        filter (λ b. place (stage_of b) == k) (staged bs)
        ≡ filter (λ b. place (stage_of b) == k) bs)
      e (staged-keeps s bs (omega arith))

in_stage_early :
    (s : Stage) (bs : List ContentBlock)
    → place s < 4
    → All (λ b. place (stage_of b) < 4) (in_stage s bs)
in_stage_early s bs le =
    All-map (in_stage s bs) (λ b e. omega arith)
      (filter-All (λ b. place (stage_of b) ≡ place s) (λ b. place (stage_of b) == place s) bs
        (at_place s bs))

staged_early : (bs : List ContentBlock) → All (λ b. place (stage_of b) < 4) (staged bs)
unfolding staged
staged_early bs =
    All-append _ (in_stage thinking_blocks bs) _ (in_stage_early thinking_blocks bs (omega arith)) (
      All-append _ (in_stage text_blocks bs) _ (in_stage_early text_blocks bs (omega arith)) (
        All-append _ (in_stage other_blocks bs) (in_stage tool_blocks bs)
          (in_stage_early other_blocks bs (omega arith))
          (in_stage_early tool_blocks bs (omega arith))))

shown_text : (b : ContentBlock) → place (stage_of b) < 4 → rank b ≡ 1 → is_shown b ≡ true
shown_text b le r = let h = placed b in ground arith

staged-Sorts : (bs : List ContentBlock) → Sorts bs (staged bs)
staged-Sorts bs = record {
  ranked = IsPlaced-IsRanked (staged bs) (staged_early bs) (staged-IsPlaced bs);
  kept = λ n le d.
      filter_same _ _ (staged bs) (λ b. rank_test n b le d)
      ∙ kept_at n bs le
      ∙ sym (filter_same _ _ bs (λ b. rank_test n b le d));
  texts =
      filter_same _ _ (staged bs) shown_test
      ∙ kept_at 1 bs (omega arith)
      ∙ sym (filter_same _ _ bs shown_test);
  only_shown = λ le. All-map (staged bs) shown_text (staged_early bs);
}

-- One block needs no order.
few-Sorts : (bs : List ContentBlock) → (ltb 1 (length bs) ≡ false) → Sorts bs bs
few-Sorts [] e = record {
  ranked = tt;
  kept = λ n le d. refl;
  texts = refl;
  only_shown = λ le. absurd (omega arith);
}
few-Sorts (b ∷ []) e = record {
  ranked = (tt, tt);
  kept = λ n le d. refl;
  texts = refl;
  only_shown = λ le. absurd (omega arith);
}
few-Sorts (b ∷ c ∷ bs) e = absurd (ground arith)

sort_blocks-Sorts : (bs : List ContentBlock) → Sorts bs (sort_blocks bs)
unfolding sort_blocks
sort_blocks-Sorts bs = elim (Bool-cases (needs_reorder false bs || ltb 1 (length bs))) [
  | inl t ↦ rw t (staged-Sorts bs)
  | inr f ↦ rw f (few-Sorts bs (ground arith))
]

-- The blocks of two contents, if both are lists of blocks; else the contents are the same.
abbrev SortsContent : MessageContent → MessageContent → Type 0
SortsContent (array bs) (array cs) = Sorts bs cs
SortsContent a b = a ≡ b

pub record SortsMessage (m out : Message) : Type 0 where
  pub same_role : out.role ≡ m.role
  pub assistant : m.role ≡ text "assistant" → SortsContent m.content out.content
  pub others : m.role ≢ text "assistant" → out ≡ m

-- The two lists are as long, and their messages are related one by one.
abbrev pub Pointwise : List Message → List Message → Type 0
Pointwise [] [] = Unit
Pointwise (m ∷ ms) (n ∷ ns) = SortsMessage m n × Pointwise ms ns
Pointwise _ _ = ⊥

content-Sorts :
    (c : MessageContent)
    → SortsContent c (map_blocks sort_blocks (record { role = []; content = c })).content
unfolding map_blocks
content-Sorts (string s) = refl
content-Sorts (array bs) = sort_blocks-Sorts bs

abbrev assistant_role : Text
assistant_role = text "assistant"

sorted-SortsMessage :
    (m : Message)
    → SortsMessage m (ite (Text-discrete m.role assistant_role) (map_blocks sort_blocks m) m)
unfolding map_blocks
sorted-SortsMessage m = elim (Text-discrete m.role assistant_role) [
  | yes e ↦
      subst (SortsMessage m) (sym (if_pos (Text-discrete m.role assistant_role) e _ _)) (record {
        same_role = refl;
        assistant = λ r. content-Sorts m.content;
        others = λ d. absurd (d e);
      })
  | no d ↦
      subst (SortsMessage m) (sym (if_neg (Text-discrete m.role assistant_role) d _ _))
        (record { same_role = refl; assistant = λ r. absurd (d r); others = λ r. refl })
]

-- Sorting keeps the number of messages, their roles and every message that is not the assistant's.
-- In one of the assistant's that is a list of blocks, thinking (redacted or not) comes first, then
-- text, then the other blocks, then the calls of tools; of thinking, of the other blocks and of the
-- calls the list keeps the same blocks in their order, and of text those that are neither blank nor
-- say that there is no content, which are the only text left if there was more than one block.
pub sort_thinking_blocks_first-Pointwise :
    (ms : List Message) → Pointwise ms (sort_thinking_blocks_first ms)
unfolding sort_thinking_blocks_first
sort_thinking_blocks_first-Pointwise [] = tt
sort_thinking_blocks_first-Pointwise (m ∷ ms) =
    (sorted-SortsMessage m, sort_thinking_blocks_first-Pointwise ms)

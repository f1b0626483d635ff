-- ===== src/Messages/Rounds/Sound.antt =====
-- A round is a call of the assistant with the results of tools after it.
use antigravity_server.Messages.Rounds.{
  ToolRound, extended, opened_at, round_step, rounds_from, user_step,
}
use antigravity_server.Messages.ToolLoops.{any_block, any_in, has_role, is_tool_result, is_tool_use}
use antigravity_server.Messages.{ContentBlock, Message}
use antigravity_server.Prelude.Text.{Text, Text-discrete, text}
use antigravity_server.Prelude.{
  append_assoc, append_nil, ap₂, sym, ite, if_neg, ℕ, zero, suc, ◌≡◌, refl, ap, ◌∙◌, subst, Bool,
  true, Bool-cases, inl, inr, List, [], ◌∷◌, ◌++◌, ◌≤◌, ◌&&◌, ◌||◌, not, false, if◌then◌else◌,
  Option, none, some, All,
}

unfoldable pub message_at : ℕ → List Message → Option Message
message_at i [] = none
message_at zero (m ∷ ms) = some m
message_at (suc i) (m ∷ ms) = message_at i ms

module _ (whole : List Message) where
  -- The message at an index has a role and a block of a kind.
  pub record Stands (role : Text) (p : ContentBlock → Bool) (i : ℕ) : Type 0 where
    pub message : Message
    pub found : message_at i whole ≡ some message
    pub by_role : has_role role message ≡ true
    pub has_block : any_in p message.content ≡ true

  -- A call of a tool by the assistant, then results of tools from the user.
  pub record IsRound (r : ToolRound) : Type 0 where
    pub calls : Stands (text "assistant") is_tool_use r.assistant_index
    pub results : All (Stands (text "user") is_tool_result) r.tool_result_indices
    pub together : r.indices ≡ r.assistant_index ∷ r.tool_result_indices

  abbrev IsCurrent : Option ToolRound → Type 0
  IsCurrent none = Unit
  IsCurrent (some r) = IsRound r

  abbrev IsStep : List ToolRound × Option ToolRound → Type 0
  IsStep out = All IsRound out.0 × IsCurrent out.1

abbrev calls_tool : Message → Bool
calls_tool m = has_role (text "assistant") m && any_in is_tool_use m.content

abbrev ends_round : Message → Bool
ends_round m = has_role (text "user") m && not (any_in is_tool_result m.content)

abbrev gives_result : Message → Bool
gives_result m = has_role (text "user") m && any_in is_tool_result m.content

-- The messages of the user with results of tools, from an index on, up to the next call of a tool
-- or the next message of the user without a result.
unfoldable pub results_from : ℕ → List Message → List ℕ
unfolding any_block is_tool_use is_tool_result
results_from i [] = []
results_from i (m ∷ ms) =
    let rest = results_from (suc i) ms in
    if calls_tool m || ends_round m then [] else if gives_result m then i ∷ rest else rest

-- A round for each message of the assistant that calls a tool, with the results after it.
unfoldable pub rounds_of : ℕ → List Message → List ToolRound
unfolding any_block is_tool_use results_from
rounds_of i [] = []
rounds_of i (m ∷ ms) =
    let rest = rounds_of (suc i) ms in
    let results = results_from (suc i) ms in
    if calls_tool m
    then record { assistant_index = i; tool_result_indices = results; indices = i ∷ results } ∷ rest
    else rest

abbrev with_results : ToolRound → List ℕ → ToolRound
with_results r xs = record r {
  tool_result_indices = r.tool_result_indices ++ xs;
  indices = r.indices ++ xs;
}

not_both : (m : Message) → has_role (text "assistant") m ≡ true → has_role (text "user") m ≡ false
unfolding Text-discrete
not_both m a = elim (Text-discrete m.role (text "assistant")) [
  | yes p ↦ subst (λ r. ite (Text-discrete r (text "user")) true false ≡ false) (sym p) refl
  | no n ↦ absurd (let f = if_neg (Text-discrete m.role (text "assistant")) n true false in cc)
]

no_results : (r : ToolRound) → with_results r [] ≡ r
no_results r =
    ap₂ (λ x y. record r { tool_result_indices = x; indices = y })
      (append_nil r.tool_result_indices) (append_nil r.indices)

extended_by :
    (i : ℕ) (r : ToolRound) (xs : List ℕ) → with_results (extended i r) xs ≡ with_results r (i ∷ xs)
extended_by i r xs =
    ap₂ (λ x y. record r { tool_result_indices = x; indices = y })
      (append_assoc r.tool_result_indices (i ∷ []) xs) (append_assoc r.indices (i ∷ []) xs)

mutual
  unfolding rounds_from round_step user_step results_from rounds_of

  rounds_from-none : (i : ℕ) (ms : List Message) → rounds_from i none ms ≡ rounds_of i ms
  rounds_from-none i [] = refl
  rounds_from-none i (m ∷ ms) = elim (Bool-cases (has_role (text "assistant") m)) [
    | inl a ↦ elim (Bool-cases (any_in is_tool_use m.content)) [
      | inl t ↦ rw (a, t) (rounds_from-some (suc i) (opened_at i) ms)
      | inr f ↦ rw (a, f) (rounds_from-none (suc i) ms)
    ]
    | inr n ↦ elim (Bool-cases (has_role (text "user") m)) [
      | inl u ↦ rw (n, u) (rounds_from-none (suc i) ms)
      | inr f ↦ rw (n, f) (rounds_from-none (suc i) ms)
    ]
  ]

  rounds_from-some :
      (i : ℕ) (r : ToolRound) (ms : List Message)
      → rounds_from i (some r) ms ≡ with_results r (results_from i ms) ∷ rounds_of i ms
  rounds_from-some i r [] = ap (λ x. x ∷ []) (sym (no_results r))
  rounds_from-some i r (m ∷ ms) = elim (Bool-cases (has_role (text "assistant") m)) [
    | inl a ↦ elim (Bool-cases (any_in is_tool_use m.content)) [
      | inl t ↦ rw (a, t) (ap₂ ◌∷◌ (sym (no_results r)) (rounds_from-some (suc i) (opened_at i) ms))
      | inr f ↦ rw (a, f, not_both m a) (rounds_from-some (suc i) r ms)
    ]
    | inr n ↦ elim (Bool-cases (has_role (text "user") m)) [
      | inl u ↦ elim (Bool-cases (any_in is_tool_result m.content)) [
        | inl t ↦
            rw (n, u, t)
              (rounds_from-some (suc i) (extended i r) ms
                ∙ ap (λ x. x ∷ rounds_of (suc i) ms) (extended_by i r (results_from (suc i) ms)))
        | inr f ↦ rw (n, u, f) (ap₂ ◌∷◌ (sym (no_results r)) (rounds_from-none (suc i) ms))
      ]
      | inr f ↦ rw (n, f) (rounds_from-some (suc i) r ms)
    ]
  ]

-- The indices are at least a number, and each is greater than the one before.
abbrev pub AscendingFrom : ℕ → List ℕ → Type 0
AscendingFrom n [] = Unit
AscendingFrom n (i ∷ is) = (n ≤ i) × AscendingFrom (suc i) is

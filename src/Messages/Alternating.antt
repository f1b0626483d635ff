-- ===== src/Messages/Alternating.antt =====
-- Merging consecutive messages of one role.
use antigravity_server.Messages.{
  ContentBlock, Message, MessageContent, array, join_contents, merge_consecutive_messages,
  merge_from, string, text_block,
}
use antigravity_server.Prelude.Text.{Text, Text-discrete}
use antigravity_server.Prelude.{
  append_assoc, ◌≡◌, ◌≢◌, refl, sym, ap, ◌∙◌, subst, Bool, true, false, List, [], ◌∷◌, ◌++◌,
  if◌then◌else◌, Bool-cases, inl, inr, ◌⊎◌, if_pos, if_neg,
}

-- The first of the messages, if there is one, has another role.
abbrev pub Differs : Text → List Message → Type 0
Differs role [] = Unit
Differs role (m ∷ ms) = role ≢ m.role

abbrev pub IsAlternating : List Message → Type 0
IsAlternating [] = Unit
IsAlternating (m ∷ ms) = Differs m.role ms × IsAlternating ms

abbrev joined : Message → Message → Message
joined current next = record current { content = join_contents current.content next.content }

-- One step of the loop joins the next message to the current one, or leaves the current one.
steps :
    (current next : Message) (rest : List Message)
    → ((current.role ≡ next.role)
        × (merge_from current (next ∷ rest) ≡ merge_from (joined current next) rest))
      ⊎ ((current.role ≢ next.role)
          × (merge_from current (next ∷ rest) ≡ current ∷ merge_from next rest))
unfolding merge_from
steps current next rest = elim (Text-discrete current.role next.role) [
  | yes e ↦ inl (
    e,
    if_pos (Text-discrete current.role next.role) e _ _
        ∙ ap (λ m. merge_from m rest) (if_pos (Text-discrete current.role next.role) e _ _),
  )
  | no d ↦ inr (
    d,
    if_neg (Text-discrete current.role next.role) d _ _
        ∙ ap (λ m. current ∷ merge_from m rest)
            (if_neg (Text-discrete current.role next.role) d _ _),
  )
]

merge_from-Differs :
    (role : Text) (current : Message) (rest : List Message)
    → role ≢ current.role
    → Differs role (merge_from current rest)
unfolding merge_from
merge_from-Differs role current [] d = d
merge_from-Differs role current (next ∷ rest) d = elim (steps current next rest) [
  | inl (e, s) ↦ subst (Differs role) (sym s) (merge_from-Differs role (joined current next) rest d)
  | inr (e, s) ↦ subst (Differs role) (sym s) d
]

merge_from-IsAlternating :
    (current : Message) (rest : List Message) → IsAlternating (merge_from current rest)
unfolding merge_from
merge_from-IsAlternating current [] = (tt, tt)
merge_from-IsAlternating current (next ∷ rest) = elim (steps current next rest) [
  | inl (e, s) ↦ subst IsAlternating (sym s) (merge_from-IsAlternating (joined current next) rest)
  | inr (d, s) ↦
      subst IsAlternating (sym s)
        (merge_from-Differs current.role next rest d, merge_from-IsAlternating next rest)
]

-- The blocks that are not text, each with the role of its message.
abbrev pub is_text : ContentBlock → Bool
is_text (text_block s) = true
is_text _ = false

unfoldable pub tagged : Text → List ContentBlock → List (Text × ContentBlock)
tagged role [] = []
tagged role (b ∷ bs) = let rest = tagged role bs in if is_text b then rest else (role, b) ∷ rest

abbrev pub blocks_in : Text → MessageContent → List (Text × ContentBlock)
blocks_in role (string s) = []
blocks_in role (array bs) = tagged role bs

abbrev pub all_blocks : List Message → List (Text × ContentBlock)
all_blocks [] = []
all_blocks (m ∷ ms) = blocks_in m.role m.content ++ all_blocks ms

tagged-append :
    (role : Text) (bs cs : List ContentBlock)
    → tagged role (bs ++ cs) ≡ tagged role bs ++ tagged role cs
unfolding tagged
tagged-append role [] cs = refl
tagged-append role (b ∷ bs) cs = elim (Bool-cases (is_text b)) [
  | inl t ↦ rw t (tagged-append role bs cs)
  | inr f ↦ rw f (ap (λ r. (role, b) ∷ r) (tagged-append role bs cs))
]

blocks_in-join_contents :
    (role : Text) (a b : MessageContent)
    → blocks_in role (join_contents a b) ≡ blocks_in role a ++ blocks_in role b
unfolding join_contents tagged
blocks_in-join_contents role (array bs) (array cs) = tagged-append role bs cs
blocks_in-join_contents role (array bs) (string s) = tagged-append role bs (text_block s ∷ [])
blocks_in-join_contents role (string r) (string s) = refl
blocks_in-join_contents role (string r) (array cs) = refl

all_blocks-merge_from :
    (current : Message) (rest : List Message)
    → all_blocks (merge_from current rest) ≡ all_blocks (current ∷ rest)
unfolding merge_from
all_blocks-merge_from current [] = refl
all_blocks-merge_from current (next ∷ rest) = elim (steps current next rest) [
  | inl (e, s) ↦
      let role = current.role in
      ap all_blocks s
      ∙ all_blocks-merge_from (joined current next) rest
      ∙ ap (λ r. r ++ all_blocks rest) (blocks_in-join_contents role current.content next.content)
      ∙ append_assoc (blocks_in role current.content) (blocks_in role next.content)
          (all_blocks rest)
      ∙ ap (λ r. blocks_in role current.content ++ (blocks_in r next.content ++ all_blocks rest)) e
  | inr (d, s) ↦
      ap all_blocks s
      ∙ ap (λ r. blocks_in current.role current.content ++ r) (all_blocks-merge_from next rest)
]

merge_from-same :
    (current : Message) (rest : List Message)
    → IsAlternating (current ∷ rest)
    → merge_from current rest ≡ current ∷ rest
unfolding merge_from
merge_from-same current [] a = refl
merge_from-same current (next ∷ rest) a = elim (steps current next rest) [
  | inl (e, s) ↦ absurd (a.0 e)
  | inr (d, s) ↦ s ∙ ap (λ r. current ∷ r) (merge_from-same next rest a.1)
]

-- What merging the messages of one role promises: no two neighbours have the same role, the blocks
-- that are not text stay, in their order and under their roles, and where no two neighbours have
-- the same role nothing changes, so that a second merge changes nothing.
pub record Merges (ms out : List Message) : Type 0 where
  pub alternating : IsAlternating out
  pub blocks : all_blocks out ≡ all_blocks ms
  pub settled : IsAlternating ms → out ≡ ms
  pub again : merge_consecutive_messages out ≡ out

merged-same : (ms : List Message) → IsAlternating ms → merge_consecutive_messages ms ≡ ms
unfolding merge_consecutive_messages
merged-same [] a = refl
merged-same (m ∷ ms) a = merge_from-same m ms a

-- After a merge no two neighbours have the same role; the blocks that are not text are those of
-- before, in their order and with their roles; messages of which no two neighbours have the same
-- role are not changed, and neither are merged ones by a second merge.
pub merge_consecutive_messages-Merges :
    (ms : List Message) → Merges ms (merge_consecutive_messages ms)
unfolding merge_consecutive_messages
merge_consecutive_messages-Merges [] = record {
  alternating = tt;
  blocks = refl;
  settled = λ a. refl;
  again = refl;
}
merge_consecutive_messages-Merges (m ∷ ms) =
    let a = merge_from-IsAlternating m ms in
    record {
      alternating = a;
      blocks = all_blocks-merge_from m ms;
      settled = merge_from-same m ms;
      again = merged-same (merge_from m ms) a;
    }

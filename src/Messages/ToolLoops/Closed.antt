-- ===== src/Messages/ToolLoops/Closed.antt =====
-- Tool loops without thinking are closed.
use antigravity_server.Messages.{Message}
use antigravity_server.Messages.ToolLoops.{
  any_in, ConversationState, analyze_conversation_state, after_tool_use, any_block,
  close_tool_loop_for_thinking, close_with, has_role, has_valid_thinking, insert_at, interrupted,
  is_tool_use, is_tool_result, is_valid_thinking, last, last_of_role, says, state_after,
}
use antigravity_server.Messages.ToolLoops.Split.{
  last_of_role-append, last_of_role-insert_at, HasIn, IsSigned, IsToolResult, IsToolUse, NoneOf,
  any_in-no, any_in-yes, has_role-no, has_role-yes, insert_at-append, last-append,
  last_of_role-none, last_of_role-split, IsSigned-Decides, IsToolResult-Decides, IsToolUse-Decides,
}
use antigravity_server.Prelude.Text.{Text, Text-discrete, text}
use antigravity_server.Prelude.{
  ℕ, suc, ◌+◌, not, ◌≡◌, ◌≢◌, refl, ap, ◌∙◌, ◌⊎◌, if-keeps, inl, inr, Bool, true, false, ◌||◌,
  Bool-cases, List, [], ◌∷◌, ◌++◌, Option, none, some, arith, length,
}

abbrev assistant : Text
assistant = text "assistant"

-- A call of a tool waits for its end.
unfoldable pub is_open : List Message → Bool
unfolding analyze_conversation_state
is_open ms = let s = analyze_conversation_state ms in s.in_tool_loop || s.interrupted_tool

abbrev pub has_thought : List Message → Bool
has_thought ms = has_valid_thinking (last_of_role assistant ms)

-- After a text of the assistant no call of a tool waits.
says-is_open :
    (ms : List Message) (idx : ℕ) (r s : Text)
    → last_of_role assistant ms ≡ some (idx, says r s)
    → is_open ms ≡ false
unfolding is_open analyze_conversation_state state_after any_block is_tool_use
says-is_open ms idx r s e = rw e refl

closed-again :
    (ms : List Message)
    → (is_open ms ≡ false) ⊎ (has_thought ms ≡ true)
    → close_tool_loop_for_thinking ms ≡ ms
unfolding is_open close_tool_loop_for_thinking
closed-again ms (inl e) = ground arith
closed-again ms (inr e) = ground arith

abbrev proceeding_text : Message
proceeding_text =
    says assistant (text "[System: Tool execution completed. Proceeding to final response.]")

abbrev proceeding : List Message
proceeding =
    proceeding_text
    ∷ says (text "user") (text "Please provide the final result based on the tool output above.")
    ∷ []

interrupted_role : has_role assistant interrupted ≡ true
unfolding Text-discrete
interrupted_role = refl

proceeds : last_of_role assistant proceeding ≡ some (0, proceeding_text)
unfolding last_of_role Text-discrete
proceeds = refl

after_tool_use-index :
    (idx : ℕ) (final : Option Message) → (after_tool_use idx final).last_assistant_idx ≡ some idx
unfolding after_tool_use
after_tool_use-index idx none = refl
after_tool_use-index idx (some m) =
    if-keeps (λ (s : ConversationState). s.last_assistant_idx ≡ some idx) (has_role (text "user") m)
      refl refl

state_after-index :
    (idx : ℕ) (m : Message) (final : Option Message)
    → (state_after (some (idx, m)) final).last_assistant_idx ≡ some idx
unfolding state_after
state_after-index idx m final =
    if-keeps (λ (s : ConversationState). s.last_assistant_idx ≡ some idx)
      (any_in is_tool_use m.content) (after_tool_use-index idx final) refl

-- The message that closes an interrupted call is the last one of the assistant.
close_with-is_open :
    (ms : List Message) (o : Option (ℕ × Message))
    → last_of_role assistant ms ≡ o
    → (state_after o (last ms)).in_tool_loop || (state_after o (last ms)).interrupted_tool ≡ true
    → is_open (close_with (state_after o (last ms)) ms) ≡ false
unfolding close_with state_after
close_with-is_open ms none e waits = cc
close_with-is_open ms (some (idx, m)) e waits =
    elim (Bool-cases ((state_after (some (idx, m)) (last ms)).in_tool_loop)) [
      | inl loop ↦ rw loop (
          says-is_open (ms ++ proceeding) (length ms + 0) assistant _
            (last_of_role-append assistant ms proceeding 0 proceeding_text proceeds))
      | inr n ↦
          let i : (state_after (some (idx, m)) (last ms)).interrupted_tool ≡ true = ground arith in
          rw (n, i, state_after-index idx m (last ms))
            (says-is_open (insert_at (suc idx) interrupted ms) (suc idx) assistant _
              (last_of_role-insert_at assistant interrupted ms idx m interrupted_role e))
    ]

opened :
    (ms : List Message)
    → is_open ms ≡ true
    → has_thought ms ≡ false
    → close_tool_loop_for_thinking ms ≡ close_with (analyze_conversation_state ms) ms
unfolding is_open close_tool_loop_for_thinking
opened ms t n = ground arith

closed :
    (ms : List Message)
    → (is_open (close_tool_loop_for_thinking ms) ≡ false)
      ⊎ (has_thought (close_tool_loop_for_thinking ms) ≡ true)
unfolding is_open analyze_conversation_state
closed ms = elim (Bool-cases (is_open ms)) [
  | inr f ↦ inl (ap is_open (closed-again ms (inl f)) ∙ f)
  | inl t ↦ elim (Bool-cases (has_thought ms)) [
    | inl h ↦ inr (ap has_thought (closed-again ms (inr h)) ∙ h)
    | inr n ↦
        inl (ap is_open (opened ms t n) ∙ close_with-is_open ms (last_of_role assistant ms) refl t)
  ]
]

-- A conversation in which `a` is the assistant's last message.
pub record Splits (ms before : List Message) (a : Message) (rest : List Message) : Type 0 where
  pub split : ms ≡ before ++ (a ∷ rest)
  pub from_assistant : a.role ≡ assistant
  pub last_one : NoneOf assistant rest

-- The last message is not the user's.
abbrev pub EndsElsewhere : List Message → Type 0
EndsElsewhere [] = Unit
EndsElsewhere (m ∷ []) = m.role ≢ text "user"
EndsElsewhere (m ∷ n ∷ ms) = EndsElsewhere (n ∷ ms)

pub record Closes (ms out : List Message) : Type 0 where
  pub finished :
      (before mid : List Message) (a u : Message)
      → Splits ms before a (mid ++ (u ∷ []))
      → u.role ≡ text "user"
      → HasIn IsToolUse a.content
      → ¬ HasIn IsSigned a.content
      → HasIn IsToolResult u.content
      → out ≡ ms ++ proceeding
  pub stopped :
      (before mid : List Message) (a u : Message)
      → Splits ms before a (mid ++ (u ∷ []))
      → u.role ≡ text "user"
      → HasIn IsToolUse a.content
      → ¬ HasIn IsSigned a.content
      → ¬ HasIn IsToolResult u.content
      → out ≡ before ++ (a ∷ interrupted ∷ (mid ++ (u ∷ [])))
  pub kept :
      (before rest : List Message) (a : Message)
      → Splits ms before a rest
      → ((¬ HasIn IsToolUse a.content) ⊎ HasIn IsSigned a.content) ⊎ EndsElsewhere rest
      → out ≡ ms
  pub silent : NoneOf assistant ms → out ≡ ms
  pub closed : (is_open out ≡ false) ⊎ (has_thought out ≡ true)
  pub again : close_tool_loop_for_thinking out ≡ out

state_in :
    (ms before rest : List Message) (a : Message)
    → Splits ms before a rest
    → analyze_conversation_state ms ≡ state_after (some (length before, a)) (last (a ∷ rest))
unfolding analyze_conversation_state
state_in ms before rest a s =
    rw
      (
        s.split,
        last_of_role-split assistant before rest a s.from_assistant s.last_one,
        last-append before rest a,
      )
      refl

thought_in :
    (ms before rest : List Message) (a : Message)
    → Splits ms before a rest
    → has_thought ms ≡ any_in is_valid_thinking a.content
unfolding has_valid_thinking
thought_in ms before rest a s =
    rw (s.split, last_of_role-split assistant before rest a s.from_assistant s.last_one) refl

state_waiting :
    (ms before mid : List Message) (a u : Message)
    → Splits ms before a (mid ++ (u ∷ []))
    → u.role ≡ text "user"
    → HasIn IsToolUse a.content
    → analyze_conversation_state ms ≡ record {
      in_tool_loop = any_in is_tool_result u.content;
      interrupted_tool = not (any_in is_tool_result u.content);
      last_assistant_idx = some (length before);
    }
unfolding state_after after_tool_use last
state_waiting ms before mid a u s r h =
    state_in ms before (mid ++ (u ∷ [])) a s
    ∙ rw
        (
          any_in-yes is_tool_use IsToolUse a.content IsToolUse-Decides h,
          last-append (a ∷ mid) [] u,
          has_role-yes (text "user") u r,
        )
        refl

finishes :
    (ms before mid : List Message) (a u : Message)
    → Splits ms before a (mid ++ (u ∷ []))
    → u.role ≡ text "user"
    → HasIn IsToolUse a.content
    → ¬ HasIn IsSigned a.content
    → HasIn IsToolResult u.content
    → close_tool_loop_for_thinking ms ≡ ms ++ proceeding
unfolding close_tool_loop_for_thinking close_with
finishes ms before mid a u s r h n res =
    let st = state_waiting ms before mid a u s r h in
    let yes_result = any_in-yes is_tool_result IsToolResult u.content IsToolResult-Decides res in
    let th =
      thought_in ms before (mid ++ (u ∷ [])) a s
      ∙ any_in-no is_valid_thinking IsSigned a.content IsSigned-Decides n in
    rw (st, yes_result, th) refl

stops :
    (ms before mid : List Message) (a u : Message)
    → Splits ms before a (mid ++ (u ∷ []))
    → u.role ≡ text "user"
    → HasIn IsToolUse a.content
    → ¬ HasIn IsSigned a.content
    → ¬ HasIn IsToolResult u.content
    → close_tool_loop_for_thinking ms ≡ before ++ (a ∷ interrupted ∷ (mid ++ (u ∷ [])))
unfolding close_tool_loop_for_thinking close_with
stops ms before mid a u s r h n res =
    let st = state_waiting ms before mid a u s r h in
    let no_result = any_in-no is_tool_result IsToolResult u.content IsToolResult-Decides res in
    let th =
      thought_in ms before (mid ++ (u ∷ [])) a s
      ∙ any_in-no is_valid_thinking IsSigned a.content IsSigned-Decides n in
    rw (st, no_result, th)
      (ap (insert_at (suc (length before)) interrupted) s.split
        ∙ insert_at-append before (mid ++ (u ∷ [])) a interrupted)

waiting : ConversationState → Bool
waiting s = s.in_tool_loop || s.interrupted_tool

other_end :
    (idx : ℕ) (a m : Message)
    → m.role ≢ text "user"
    → waiting (state_after (some (idx, a)) (some m)) ≡ false
unfolding waiting state_after after_tool_use
other_end idx a m n =
    if-keeps (λ (s : ConversationState). waiting s ≡ false) (any_in is_tool_use a.content)
      (rw (has_role-no (text "user") m n) refl) refl

not_user : (role : Text) → role ≡ assistant → role ≢ text "user"
not_user role e f = cc

elsewhere :
    (a : Message) (rest : List Message)
    → a.role ≡ assistant
    → EndsElsewhere rest
    → (m : Message) × (last (a ∷ rest) ≡ some m) × (m.role ≢ text "user")
unfolding last
elsewhere a [] r e = (a, refl, not_user a.role r)
elsewhere a (m ∷ []) r e = (m, refl, e)
elsewhere a (m ∷ n ∷ ms) r e = elsewhere_rest n ms e
  where
    elsewhere_rest :
        (n : Message) (ms : List Message)
        → EndsElsewhere (n ∷ ms)
        → (m : Message) × (last (n ∷ ms) ≡ some m) × (m.role ≢ text "user")
    elsewhere_rest n [] e = (n, refl, e)
    elsewhere_rest n (k ∷ ms) e = elsewhere_rest k ms e

keeps :
    (ms before rest : List Message) (a : Message)
    → Splits ms before a rest
    → ((¬ HasIn IsToolUse a.content) ⊎ HasIn IsSigned a.content) ⊎ EndsElsewhere rest
    → (is_open ms ≡ false) ⊎ (has_thought ms ≡ true)
unfolding is_open state_after waiting
keeps ms before rest a s (inl (inl n)) = inl (
    rw (state_in ms before rest a s, any_in-no is_tool_use IsToolUse a.content IsToolUse-Decides n)
      refl)
keeps ms before rest a s (inl (inr y)) = inr (
    thought_in ms before rest a s
    ∙ any_in-yes is_valid_thinking IsSigned a.content IsSigned-Decides y)
keeps ms before rest a s (inr e) =
    let (m, l, n) = elsewhere a rest s.from_assistant e in
    inl (
      ap waiting (state_in ms before rest a s)
      ∙ ap (λ o. waiting (state_after (some (length before, a)) o)) l
      ∙ other_end (length before) a m n)

silent-is_open : (ms : List Message) → NoneOf assistant ms → is_open ms ≡ false
unfolding is_open analyze_conversation_state state_after
silent-is_open ms n = rw (last_of_role-none assistant ms n) refl

-- Where the assistant's last message calls a tool and has no thinking with a signature of 50 bytes
-- at least, and the user's message ends the list: with a result of a tool in that message the two
-- messages that close the loop are added at the end, else the message that says that the call was
-- interrupted stands right after the assistant's. In all other cases the list stays as it is.
-- Afterwards no call waits for its end or the assistant's last message has such thinking, and
-- closing the loop again changes nothing.
pub close_tool_loop_for_thinking-Closes :
    (ms : List Message) → Closes ms (close_tool_loop_for_thinking ms)
close_tool_loop_for_thinking-Closes ms =
    let c = closed ms in
    record {
      finished = λ before mid a u s r h n res. finishes ms before mid a u s r h n res;
      stopped = λ before mid a u s r h n res. stops ms before mid a u s r h n res;
      kept = λ before rest a s why. closed-again ms (keeps ms before rest a s why);
      silent = λ n. closed-again ms (inl (silent-is_open ms n));
      closed = c;
      again = closed-again (close_tool_loop_for_thinking ms) c;
    }

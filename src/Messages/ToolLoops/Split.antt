-- ===== src/Messages/ToolLoops/Split.antt =====
-- What the analysis of a conversation finds in a list that is split at the assistant's last
-- message.
use antigravity_server.Messages.{
  ContentBlock, Message, MessageContent, array, string, text_block, thinking, redacted_thinking,
  image, document, server_tool_use, web_search_tool_result, tool_result, tool_use,
}
use antigravity_server.Messages.ToolLoops.{
  any_block, any_in, has_role, insert_at, is_tool_result, is_tool_use, is_valid_thinking, last,
  last_of_role,
}
use antigravity_server.Prelude.Text.{Text, Text-discrete, len}
use antigravity_server.Prelude.{
  ℕ, Option, ◌+◌, ◌∙◌, Option-cases, sym, subst, if◌then◌else◌, suc, ◌≡◌, ◌≢◌, ◌≤◌, refl, ap, ◌⊎◌,
  inl, inr, Bool, true, false, Bool-cases, List, [], ◌∷◌, ◌++◌, none, some, if_pos, if_neg, All,
  arith, length, leb,
}

abbrev pub IsToolUse : ContentBlock → Type 0
IsToolUse (tool_use id name v s c) = Unit
IsToolUse _ = ⊥

abbrev pub IsToolResult : ContentBlock → Type 0
IsToolResult (tool_result id v e) = Unit
IsToolResult _ = ⊥

-- A thinking block with a text and a signature of 50 bytes at least.
abbrev pub IsSigned : ContentBlock → Type 0
IsSigned (thinking t (some s) c) = (t ≢ []) × (50 ≤ len s)
IsSigned _ = ⊥

abbrev pub Has : (ContentBlock → Type 0) → List ContentBlock → Type 0
Has P [] = ⊥
Has P (b ∷ bs) = P b ⊎ Has P bs

abbrev pub HasIn : (ContentBlock → Type 0) → MessageContent → Type 0
HasIn P (string s) = ⊥
HasIn P (array bs) = Has P bs

-- The Boolean test `p` says what `P` says.
abbrev Decides : (ContentBlock → Bool) → (ContentBlock → Type 0) → Type 0
Decides p P = (b : ContentBlock) → ((p b ≡ true) × P b) ⊎ ((p b ≡ false) × ¬ P b)

any_block-Has :
    (p : ContentBlock → Bool) (P : ContentBlock → Type 0)
    → Decides p P
    → (bs : List ContentBlock)
    → ((any_block p bs ≡ true) × Has P bs) ⊎ ((any_block p bs ≡ false) × ¬ Has P bs)
unfolding any_block
any_block-Has p P d [] = inr (refl, λ h. h)
any_block-Has p P d (b ∷ bs) = elim (d b) [
  | inl (t, y) ↦ inl (rw t refl, inl y)
  | inr (f, n) ↦ elim (any_block-Has p P d bs) [
    | inl (t, y) ↦ inl (rw (f, t) refl, inr y)
    | inr (g, m) ↦ inr (rw (f, g) refl, λ h. elim h [ inl y ↦ n y | inr y ↦ m y ])
  ]
]

any_in-HasIn :
    (p : ContentBlock → Bool) (P : ContentBlock → Type 0)
    → Decides p P
    → (c : MessageContent)
    → ((any_in p c ≡ true) × HasIn P c) ⊎ ((any_in p c ≡ false) × ¬ HasIn P c)
any_in-HasIn p P d (string s) = inr (refl, λ h. h)
any_in-HasIn p P d (array bs) = any_block-Has p P d bs

pub any_in-yes :
    (p : ContentBlock → Bool) (P : ContentBlock → Type 0) (c : MessageContent)
    → Decides p P
    → HasIn P c
    → any_in p c ≡ true
any_in-yes p P c d h = elim (any_in-HasIn p P d c) [ inl (t, y) ↦ t | inr (f, n) ↦ absurd (n h) ]

pub any_in-no :
    (p : ContentBlock → Bool) (P : ContentBlock → Type 0) (c : MessageContent)
    → Decides p P
    → ¬ HasIn P c
    → any_in p c ≡ false
any_in-no p P c d h = elim (any_in-HasIn p P d c) [ inl (t, y) ↦ absurd (h y) | inr (f, n) ↦ f ]

pub IsToolUse-Decides : Decides is_tool_use IsToolUse
unfolding is_tool_use
IsToolUse-Decides (tool_use id name v s c) = inl (refl, tt)
IsToolUse-Decides (thinking t s c) = inr (refl, λ h. h)
IsToolUse-Decides (redacted_thinking d) = inr (refl, λ h. h)
IsToolUse-Decides (text_block s) = inr (refl, λ h. h)
IsToolUse-Decides (image s c) = inr (refl, λ h. h)
IsToolUse-Decides (document s c) = inr (refl, λ h. h)
IsToolUse-Decides (tool_result id v e) = inr (refl, λ h. h)
IsToolUse-Decides (server_tool_use id name v) = inr (refl, λ h. h)
IsToolUse-Decides (web_search_tool_result id v) = inr (refl, λ h. h)

pub IsToolResult-Decides : Decides is_tool_result IsToolResult
unfolding is_tool_result
IsToolResult-Decides (tool_result id v e) = inl (refl, tt)
IsToolResult-Decides (tool_use id name v s c) = inr (refl, λ h. h)
IsToolResult-Decides (thinking t s c) = inr (refl, λ h. h)
IsToolResult-Decides (redacted_thinking d) = inr (refl, λ h. h)
IsToolResult-Decides (text_block s) = inr (refl, λ h. h)
IsToolResult-Decides (image s c) = inr (refl, λ h. h)
IsToolResult-Decides (document s c) = inr (refl, λ h. h)
IsToolResult-Decides (server_tool_use id name v) = inr (refl, λ h. h)
IsToolResult-Decides (web_search_tool_result id v) = inr (refl, λ h. h)

pub IsSigned-Decides : Decides is_valid_thinking IsSigned
unfolding is_valid_thinking
IsSigned-Decides (thinking [] none c) = inr (refl, λ h. h)
IsSigned-Decides (thinking [] (some s) c) = inr (refl, λ h. h.0 refl)
IsSigned-Decides (thinking (t ∷ ts) none c) = inr (refl, λ h. h)
IsSigned-Decides (thinking (t ∷ ts) (some s) c) = elim (Bool-cases (leb 50 (len s))) [
  | inl y ↦ inl (y, ((λ e. cc), ground arith))
  | inr n ↦ inr (n, λ h. let le = h.1 in ground arith)
]
IsSigned-Decides (tool_result id v e) = inr (refl, λ h. h)
IsSigned-Decides (tool_use id name v s c) = inr (refl, λ h. h)
IsSigned-Decides (redacted_thinking d) = inr (refl, λ h. h)
IsSigned-Decides (text_block s) = inr (refl, λ h. h)
IsSigned-Decides (image s c) = inr (refl, λ h. h)
IsSigned-Decides (document s c) = inr (refl, λ h. h)
IsSigned-Decides (server_tool_use id name v) = inr (refl, λ h. h)
IsSigned-Decides (web_search_tool_result id v) = inr (refl, λ h. h)

abbrev pub NoneOf : Text → List Message → Type 0
NoneOf role ms = All (λ (m : Message). m.role ≢ role) ms

pub has_role-yes : (role : Text) (m : Message) → m.role ≡ role → has_role role m ≡ true
has_role-yes role m e = if_pos (Text-discrete m.role role) e true false

pub has_role-no : (role : Text) (m : Message) → m.role ≢ role → has_role role m ≡ false
has_role-no role m n = if_neg (Text-discrete m.role role) n true false

pub last_of_role-none :
    (role : Text) (ms : List Message) → NoneOf role ms → last_of_role role ms ≡ none
unfolding last_of_role
last_of_role-none role [] h = refl
last_of_role-none role (m ∷ ms) h = rw (last_of_role-none role ms h.1, has_role-no role m h.0) refl

pub last_of_role-split :
    (role : Text) (before rest : List Message) (a : Message)
    → a.role ≡ role
    → NoneOf role rest
    → last_of_role role (before ++ (a ∷ rest)) ≡ some (length before, a)
unfolding last_of_role
last_of_role-split role [] rest a e h =
    rw (last_of_role-none role rest h, has_role-yes role a e) refl
last_of_role-split role (m ∷ ms) rest a e h = rw (last_of_role-split role ms rest a e h) refl

pub last-append : (xs ys : List Message) (y : Message) → last (xs ++ (y ∷ ys)) ≡ last (y ∷ ys)
unfolding last
last-append [] ys y = refl
last-append (x ∷ []) ys y = refl
last-append (x ∷ z ∷ xs) ys y = last-append (z ∷ xs) ys y

-- The message at an index that is inserted after the one before it.
pub insert_at-append :
    (before rest : List Message) (a x : Message)
    → insert_at (suc (length before)) x (before ++ (a ∷ rest)) ≡ before ++ (a ∷ x ∷ rest)
unfolding insert_at
insert_at-append [] rest a x = refl
insert_at-append (m ∷ ms) rest a x = ap (λ l. m ∷ l) (insert_at-append ms rest a x)

pub last_of_role-append :
    (role : Text) (xs rest : List Message) (i : ℕ) (m : Message)
    → last_of_role role rest ≡ some (i, m)
    → last_of_role role (xs ++ rest) ≡ some (length xs + i, m)
unfolding last_of_role
last_of_role-append role [] rest i m e = e ∙ ap (λ n. some (n, m)) (omega arith)
last_of_role-append role (x ∷ xs) rest i m e =
    rw (last_of_role-append role xs rest i m e) (ap (λ n. some (n, m)) (omega arith))

abbrev index_of : Option (ℕ × Message) → ℕ
index_of none = 0
index_of (some x) = x.0

abbrev start_of : Bool → Message → Option (ℕ × Message)
start_of b y = if b then some (0, y) else none

-- Where the rest has no message of the role, the first one is at the start.
at_start : (b : Bool) (y m : Message) (idx : ℕ) → start_of b y ≡ some (idx, m) → idx ≡ 0
at_start true y m idx e = sym (ap index_of e)
at_start false y m idx e = cc

last_of_role-two :
    (role : Text) (x y : Message) (ys : List Message)
    → has_role role x ≡ true
    → last_of_role role ys ≡ none
    → last_of_role role (y ∷ x ∷ ys) ≡ some (1, x)
unfolding last_of_role
last_of_role-two role x y ys r n = rw (n, r) refl

pub last_of_role-insert_at :
    (role : Text) (x : Message) (ms : List Message) (idx : ℕ) (m : Message)
    → has_role role x ≡ true
    → last_of_role role ms ≡ some (idx, m)
    → last_of_role role (insert_at (suc idx) x ms) ≡ some (suc idx, x)
unfolding last_of_role insert_at
last_of_role-insert_at role x [] idx m r e = cc
last_of_role-insert_at role x (y ∷ ys) idx m r e = elim (Option-cases (last_of_role role ys)) [
  | inl n ↦
      let start : start_of (has_role role y) y ≡ some (idx, m) = rw n at e in
      subst (λ i. last_of_role role (insert_at (suc i) x (y ∷ ys)) ≡ some (suc i, x))
        (sym (at_start (has_role role y) y m idx start)) (last_of_role-two role x y ys r n)
  | inr (z, s) ↦
      let later : some (suc z.0, z.1) ≡ some (idx, m) = rw s at e in
      subst (λ i. last_of_role role (insert_at (suc i) x (y ∷ ys)) ≡ some (suc i, x))
        (ap index_of later) (rw (last_of_role-insert_at role x ys z.0 z.1 r s) refl)
]

-- ===== src/Messages/Signatures/Repaired.antt =====
-- What replacing signatures leaves.
use antigravity_server.Messages.{
  ContentBlock, Message, MessageContent, array, map_blocks, string, thinking, text_block, image,
  document, redacted_thinking, tool_use, tool_result, server_tool_use, web_search_tool_result,
}
use antigravity_server.Messages.Signatures.{
  is_dummy, is_incompatible, dummy_signature, filter_invalid_thinking_blocks_with_family, fix_block,
  fixed_signature, needs_fix,
}
use antigravity_server.SignatureCache.{SignatureCache, get_signature_family}
use antigravity_server.Prelude.Text.{Text, Text-discrete, len, text}
use antigravity_server.Json.{Json}
use antigravity_server.Prelude.{
  ◌≢◌, ◌≤◌, ◌⊎◌, leb, true, none, arith, ◌≡◌, refl, sym, ap, ap₂, ◌∙◌, subst, Bool-cases, false,
  List, [], ◌∷◌, Option, some, ite, if_pos, if_neg, inl, inr, map,
}

module _ (cache : SignatureCache) (target_family : Option Text) where
  abbrev fix : ContentBlock → ContentBlock
  fix = fix_block cache target_family

  abbrev repair : List Message → List Message
  repair = filter_invalid_thinking_blocks_with_family cache target_family

  dummy_settled : needs_fix cache target_family (some dummy_signature) ≡ false
  unfolding needs_fix Text-discrete len
  dummy_settled = refl

  fixed_signature-settled :
      (s : Option Text)
      → needs_fix cache target_family (fixed_signature cache target_family s) ≡ false
  unfolding fixed_signature
  fixed_signature-settled s = elim (Bool-cases (needs_fix cache target_family s)) [
    | inl t ↦ rw t dummy_settled
    | inr f ↦ rw f f
  ]

  fix_block-again : (b : ContentBlock) → fix (fix b) ≡ fix b
  unfolding fix_block fixed_signature
  fix_block-again (thinking t s c) = ap (λ x. thinking t x c) (rw (fixed_signature-settled s) refl)
  fix_block-again (text_block s) = refl
  fix_block-again (image s c) = refl
  fix_block-again (document s c) = refl
  fix_block-again (redacted_thinking d) = refl
  fix_block-again (tool_use i n v s c) = refl
  fix_block-again (tool_result i v e) = refl
  fix_block-again (server_tool_use i n v) = refl
  fix_block-again (web_search_tool_result i v) = refl

  -- The cache knows no family of the signature that differs from the target's.
  abbrev pub IsCompatible : Text → Type 0
  IsCompatible s =
      (target origin : Text)
      → target_family ≡ some target
      → get_signature_family cache s ≡ some origin
      → origin ≡ target

  -- A signature that may be kept: the dummy one, or one of 50 bytes at least of a compatible
  -- family.
  abbrev pub IsKeepable : Option Text → Type 0
  IsKeepable none = ⊥
  IsKeepable (some s) = (s ≡ dummy_signature) ⊎ ((50 ≤ len s) × IsCompatible s)

  -- A thinking block keeps its text, and its signature exactly if that may be kept; else it gets
  -- the dummy one. The other blocks are kept.
  abbrev pub RepairsBlock : ContentBlock → ContentBlock → Type 0
  RepairsBlock (thinking t s c) out =
      (IsKeepable s → out ≡ thinking t s c)
      × (¬ IsKeepable s → out ≡ thinking t (some dummy_signature) c)
  RepairsBlock b out = out ≡ b

  Agree : (target origin : Option Text) → Type 0
  Agree target origin = (t o : Text) → target ≡ some t → origin ≡ some o → o ≡ t

  is_incompatible-no :
      (target origin : Option Text) → is_incompatible target origin ≡ false → Agree target origin
  unfolding is_incompatible Agree
  is_incompatible-no none origin h = λ t o e f. cc
  is_incompatible-no (some a) none h = λ t o e f. cc
  is_incompatible-no (some a) (some b) h = λ t o e f. elim (Text-discrete b a) [
    | yes p ↦ cc
    | no n ↦ absurd (let w = if_neg (Text-discrete b a) n false true in cc)
  ]

  is_incompatible-yes :
      (target origin : Option Text) → is_incompatible target origin ≡ true → ¬ Agree target origin
  unfolding is_incompatible Agree
  is_incompatible-yes none origin h k = cc
  is_incompatible-yes (some a) none h k = cc
  is_incompatible-yes (some a) (some b) h k =
      let w = if_pos (Text-discrete b a) (k a b refl refl) false true in cc

  is_dummy-yes : (s : Text) → is_dummy s ≡ true → s ≡ dummy_signature
  is_dummy-yes s h = elim (Text-discrete s dummy_signature) [
    | yes p ↦ p
    | no n ↦ absurd (let w = if_neg (Text-discrete s dummy_signature) n true false in cc)
  ]

  needs_fix-no : (s : Option Text) → needs_fix cache target_family s ≡ false → IsKeepable s
  unfolding needs_fix Agree
  needs_fix-no none h = cc
  needs_fix-no (some s) h = elim (Bool-cases (is_dummy s)) [
    | inl d ↦ inl (is_dummy-yes s d)
    | inr n ↦ elim (Bool-cases (leb 50 (len s))) [
      | inl le ↦
          let k : is_incompatible target_family (get_signature_family cache s) ≡ false =
            rw (n, le) at h in
          inr (ground arith, is_incompatible-no target_family (get_signature_family cache s) k)
      | inr short ↦ absurd (let k : true ≡ false = rw (n, short) at h in cc)
    ]
  ]

  is_dummy_self : is_dummy dummy_signature ≡ true
  unfolding Text-discrete
  is_dummy_self = refl

  needs_fix-yes : (s : Option Text) → needs_fix cache target_family s ≡ true → ¬ IsKeepable s
  unfolding needs_fix Agree
  needs_fix-yes none h k = k
  needs_fix-yes (some s) h (inl p) =
      let settled : needs_fix cache target_family (some s) ≡ false =
        ap (λ x. needs_fix cache target_family (some x)) p ∙ dummy_settled in
      cc
  needs_fix-yes (some s) h (inr (le, k)) = elim (Bool-cases (is_dummy s)) [
    | inl d ↦
        let settled : needs_fix cache target_family (some s) ≡ false =
          ap (λ x. needs_fix cache target_family (some x)) (is_dummy-yes s d) ∙ dummy_settled in
        cc
    | inr n ↦
        let long : leb 50 (len s) ≡ true = ground arith in
        let e : is_incompatible target_family (get_signature_family cache s) ≡ true =
          rw (n, long) at h in
        is_incompatible-yes target_family (get_signature_family cache s) e k
  ]

  thinking-RepairsBlock :
      (t : Text) (s : Option Text) (c : Option Json)
      → RepairsBlock (thinking t s c) (thinking t (fixed_signature cache target_family s) c)
  unfolding fixed_signature
  thinking-RepairsBlock t s c = elim (Bool-cases (needs_fix cache target_family s)) [
    | inl y ↦ rw y ((λ k. absurd (needs_fix-yes s y k)), (λ n. refl))
    | inr n ↦ rw n ((λ k. refl), (λ d. absurd (d (needs_fix-no s n))))
  ]

  fix_block-RepairsBlock : (b : ContentBlock) → RepairsBlock b (fix b)
  unfolding fix_block
  fix_block-RepairsBlock (thinking t s c) = thinking-RepairsBlock t s c
  fix_block-RepairsBlock (text_block s) = refl
  fix_block-RepairsBlock (image s c) = refl
  fix_block-RepairsBlock (document s c) = refl
  fix_block-RepairsBlock (redacted_thinking d) = refl
  fix_block-RepairsBlock (tool_use i n v s c) = refl
  fix_block-RepairsBlock (tool_result i v e) = refl
  fix_block-RepairsBlock (server_tool_use i n v) = refl
  fix_block-RepairsBlock (web_search_tool_result i v) = refl

  -- The lists are as long, and their blocks are repaired one by one.
  abbrev pub RepairsBlocks : List ContentBlock → List ContentBlock → Type 0
  RepairsBlocks [] [] = Unit
  RepairsBlocks (b ∷ bs) (c ∷ cs) = RepairsBlock b c × RepairsBlocks bs cs
  RepairsBlocks _ _ = ⊥

  blocks-RepairsBlocks : (bs : List ContentBlock) → RepairsBlocks bs (map fix bs)
  blocks-RepairsBlocks [] = tt
  blocks-RepairsBlocks (b ∷ bs) = (fix_block-RepairsBlock b, blocks-RepairsBlocks bs)

  blocks-again : (bs : List ContentBlock) → map fix (map fix bs) ≡ map fix bs
  blocks-again [] = refl
  blocks-again (b ∷ bs) = ap₂ (λ x y. x ∷ y) (fix_block-again b) (blocks-again bs)

  abbrev RepairsContent : MessageContent → MessageContent → Type 0
  RepairsContent (array bs) (array cs) = RepairsBlocks bs cs
  RepairsContent a b = a ≡ b

  abbrev assistant : Text
  assistant = text "assistant"

  -- A message of the assistant is repaired, with its role; the others are kept.
  pub record RepairsMessage (m out : Message) : Type 0 where
    pub same_role : out.role ≡ m.role
    pub blocks : m.role ≡ assistant → RepairsContent m.content out.content
    pub others : m.role ≢ assistant → out ≡ m

  abbrev pub Repairs : List Message → List Message → Type 0
  Repairs [] [] = Unit
  Repairs (m ∷ ms) (n ∷ ns) = RepairsMessage m n × Repairs ms ns
  Repairs _ _ = ⊥

  content-RepairsContent :
      (role : Text) (c : MessageContent)
      → RepairsContent c (map_blocks (map fix) (record { role = role; content = c })).content
  unfolding map_blocks
  content-RepairsContent role (array bs) = blocks-RepairsBlocks bs
  content-RepairsContent role (string s) = refl

  content-again :
      (role : Text) (c : MessageContent)
      → map_blocks (map fix) (map_blocks (map fix) (record { role = role; content = c }))
        ≡ map_blocks (map fix) (record { role = role; content = c })
  unfolding map_blocks
  content-again role (array bs) =
      ap (λ l. record { role = role; content = array l }) (blocks-again bs)
  content-again role (string s) = refl

  abbrev repair_one : Message → Message
  repair_one m = ite (Text-discrete m.role assistant) (map_blocks (map fix) m) m

  repair_one-RepairsMessage :
      (m : Message) → RepairsMessage m (repair_one m) × (repair_one (repair_one m) ≡ repair_one m)
  unfolding map_blocks
  repair_one-RepairsMessage m = elim (Text-discrete m.role assistant) [
    | yes e ↦
        let now = if_pos (Text-discrete m.role assistant) e (map_blocks (map fix) m) m in
        subst (λ n. RepairsMessage m n × (repair_one n ≡ n)) (sym now)
          (
            record {
              same_role = refl;
              blocks = λ r. content-RepairsContent m.role m.content;
              others = λ d. absurd (d e);
            },
            if_pos (Text-discrete m.role assistant) e _ _ ∙ content-again m.role m.content,
          )
    | no d ↦
        let now = if_neg (Text-discrete m.role assistant) d (map_blocks (map fix) m) m in
        subst (λ n. RepairsMessage m n × (repair_one n ≡ n)) (sym now)
          (record { same_role = refl; blocks = λ r. absurd (d r); others = λ r. refl }, now)
  ]

  -- The pass keeps every message that is not the assistant's, and in the assistant's every block
  -- that is not thinking. A thinking block keeps its signature exactly where that is the dummy one,
  -- or has 50 bytes at least and the cache knows no family of it that is not the target's; else it
  -- gets the dummy one, and keeps the rest. A second pass with the same cache and target changes
  -- nothing.
  pub filter_invalid_thinking_blocks_with_family-Repairs :
      (ms : List Message) → Repairs ms (repair ms) × (repair (repair ms) ≡ repair ms)
  unfolding filter_invalid_thinking_blocks_with_family
  filter_invalid_thinking_blocks_with_family-Repairs [] = (tt, refl)
  filter_invalid_thinking_blocks_with_family-Repairs (m ∷ ms) =
      let one = repair_one-RepairsMessage m in
      let rest = filter_invalid_thinking_blocks_with_family-Repairs ms in
      ((one.0, rest.0), ap₂ (λ x y. x ∷ y) one.1 rest.1)

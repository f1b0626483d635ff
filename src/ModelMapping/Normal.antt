-- ===== src/ModelMapping/Normal.antt =====
-- Where the names of models lead.
use antigravity_server.ModelMapping.{
  by_words, claude_to_gemini, map_claude_model_to_gemini, normalize_to_standard_id,
  normalize_to_standard_id_with_depth, passes_through,
}
use antigravity_server.Prelude.Map.{AllValues, AllValues-lookup, Map, lookup, text_key}
use antigravity_server.Prelude.Text.{Text, Text-discrete, text, starts_with, contains}
use antigravity_server.Prelude.{
  ℕ, ◌≡◌, ◌⊎◌, ◌∙◌, refl, sym, ap, subst, arith, true, false, ◌||◌, ◌&&◌, Bool, inl, inr, Option,
  Option-cases, none, some, List, [], ◌∷◌, unwrap_or, ite, if_pos, if_neg, suc, if◌then◌else◌,
  if-keeps, All, leb, ◌==◌,
}

-- A name that the table maps to itself.
fixed : Text → Bool
fixed v = elim (lookup v claude_to_gemini) [
  | none ↦ false
  | some w ↦ ite (Text-discrete w v) true false
]

all_fixed : Map Text Text → Bool
unfolding fixed
all_fixed [] = true
all_fixed ((k, v) ∷ m) = fixed v && all_fixed m

table_fixed : all_fixed claude_to_gemini ≡ true
unfolding all_fixed claude_to_gemini lookup Text-discrete
table_fixed = refl

fixed-lookup : (v : Text) → fixed v ≡ true → lookup v claude_to_gemini ≡ some v
unfolding fixed
fixed-lookup v e = elim (Option-cases (lookup v claude_to_gemini)) [
  | inl n ↦ let f : fixed v ≡ false = rw (fixed, n) refl in cc
  | inr (w, s) ↦ elim (Text-discrete w v) [
    | yes p ↦ s ∙ ap some p
    | no d ↦ let f : fixed v ≡ false = rw (fixed, s) (if_neg (Text-discrete w v) d true false) in cc
  ]
]

all_fixed-AllValues :
    (m : Map Text Text) → all_fixed m ≡ true → AllValues (λ v. lookup v claude_to_gemini ≡ some v) m
unfolding all_fixed
all_fixed-AllValues [] e = tt
all_fixed-AllValues ((k, v) ∷ m) e =
    (fixed-lookup v (ground arith), all_fixed-AllValues m (ground arith))

lookup_twice :
    (name v : Text) → lookup name claude_to_gemini ≡ some v → lookup v claude_to_gemini ≡ some v
lookup_twice name v e =
    AllValues-lookup (λ w. lookup w claude_to_gemini ≡ some w) name v claude_to_gemini
      (all_fixed-AllValues claude_to_gemini table_fixed) e

-- The name that the table has for a name, or the name.
abbrev pub mapped_name : Text → Text
mapped_name name = unwrap_or (lookup name claude_to_gemini) name

module _ (lowercase : Text → Text) where
  no_more_steps :
      (name : Text) (left : ℕ)
      → (lookup name claude_to_gemini ≡ none) ⊎ (lookup name claude_to_gemini ≡ some name)
      → normalize_to_standard_id_with_depth lowercase name (suc left) ≡ by_words (lowercase name)
  unfolding normalize_to_standard_id_with_depth
  no_more_steps name left (inl e) = rw (normalize_to_standard_id_with_depth, e) refl
  no_more_steps name left (inr e) =
      rw (normalize_to_standard_id_with_depth, e)
        (if_pos (Text-discrete name name) refl (by_words (lowercase name))
          (normalize_to_standard_id_with_depth lowercase name left))

  -- With two levels of depth left, or more, the recursion comes to the words of the name that the
  -- table has for the model, or of the model's own name: the limit on the depth is never met.
  pub normalize_to_standard_id_with_depth_lem :
      (name : Text) (left : ℕ)
      → normalize_to_standard_id_with_depth lowercase name (suc (suc left))
        ≡ by_words (lowercase (mapped_name name))
  unfolding normalize_to_standard_id_with_depth
  normalize_to_standard_id_with_depth_lem name left =
      elim (Option-cases (lookup name claude_to_gemini)) [
        | inl e ↦ rw e (no_more_steps name (suc left) (inl e))
        | inr (v, e) ↦ rw e (elim (Text-discrete v name) [
          | yes p ↦
              no_more_steps name (suc left) (inr (e ∙ ap some p))
              ∙ ap (λ n. by_words (lowercase n)) (sym p)
          | no d ↦
              rw (normalize_to_standard_id_with_depth, e)
                (if_neg (Text-discrete v name) d (by_words (lowercase name))
                    (normalize_to_standard_id_with_depth lowercase v (suc left))
                  ∙ no_more_steps v left (inr (lookup_twice name v e)))
        ])
      ]

-- The ids of quota protection.
abbrev pub standard_ids : List Text
standard_ids =
    text "gemini-3-flash"
    ∷ text "gemini-3-pro-high"
    ∷ text "claude-opus-4-5-thinking"
    ∷ text "claude-sonnet-4-5-thinking"
    ∷ text "claude-sonnet-4-5"
    ∷ []

abbrev pub OneOf : Text → List Text → Type 0
OneOf id [] = ⊥
OneOf id (x ∷ xs) = (id ≡ x) ⊎ OneOf id xs

abbrev OnSome : Option Text → Type 0
OnSome none = Unit
OnSome (some id) = OneOf id standard_ids

by_words-OnSome : (lower : Text) → OnSome (by_words lower)
unfolding by_words
by_words-OnSome lower =
    if-keeps OnSome
      (ite (Text-discrete lower (text "gemini-3-flash")) true false
        || starts_with lower (text "gemini-3-flash-"))
      (inl refl)
      (if-keeps OnSome (starts_with lower (text "gemini-3-pro")) (inr (inl refl)) (
        if-keeps OnSome (contains lower (text "opus")) (inr (inr (inl refl))) (
          if-keeps OnSome (contains lower (text "sonnet") && contains lower (text "thinking"))
            (inr (inr (inr (inl refl))))
            (if-keeps OnSome (contains lower (text "sonnet") || contains lower (text "haiku"))
              (inr (inr (inr (inr (inl refl))))) tt))))

-- Small letters, digits, `-` and `.`, which have no other lower case.
abbrev is_plain : ℕ → Bool
is_plain c = (leb b'a' c && leb c b'z') || (leb b'0' c && leb c b'9') || c == b'-' || c == b'.'

abbrev pub all_plain : Text → Bool
all_plain [] = true
all_plain (c ∷ s) = is_plain c && all_plain s

-- A standard id leads back to itself through the table and the words.
abbrev Settled : Text → Type 0
Settled id = (all_plain (mapped_name id) ≡ true) × (by_words (mapped_name id) ≡ some id)

standard_ids-Settled : All Settled standard_ids
unfolding by_words claude_to_gemini lookup Text-discrete starts_with contains
standard_ids-Settled =
    ((refl, refl), ((refl, refl), ((refl, refl), ((refl, refl), ((refl, refl), tt)))))

at_one {ℓ} : (P : Text → Type ℓ) (id : Text) (xs : List Text) → OneOf id xs → All P xs → P id
at_one P id [] o h = absurd o
at_one P id (x ∷ xs) (inl e) h = subst P (sym e) h.0
at_one P id (x ∷ xs) (inr o) h = at_one P id xs o h.1

-- Where lower case leaves small letters, digits, `-` and `.` alone, every id that a name is
-- normalized to is one of the five standard ids, and is normalized to itself.
pub normalize_to_standard_id-twice :
    (lowercase : Text → Text) (name id : Text)
    → ((s : Text) → all_plain s ≡ true → lowercase s ≡ s)
    → normalize_to_standard_id lowercase name ≡ some id
    → OneOf id standard_ids × (normalize_to_standard_id lowercase id ≡ some id)
unfolding normalize_to_standard_id
normalize_to_standard_id-twice lowercase name id plain e =
    let words = normalize_to_standard_id_with_depth_lem lowercase in
    let one : OneOf id standard_ids =
      subst OnSome (sym (words name 4) ∙ e) (by_words-OnSome (lowercase (mapped_name name))) in
    let settled : Settled id = at_one Settled id standard_ids one standard_ids-Settled in
    (one, words id 4 ∙ ap by_words (plain (mapped_name id) settled.0) ∙ settled.1)

-- What a name is mapped to is mapped to itself.
pub map_claude_model_to_gemini-twice :
    (input mapped : Text)
    → map_claude_model_to_gemini input ≡ some mapped
    → map_claude_model_to_gemini mapped ≡ some mapped
unfolding map_claude_model_to_gemini
map_claude_model_to_gemini-twice input mapped e =
    elim (Option-cases (lookup input claude_to_gemini)) [
      | inr (v, f) ↦
          let same : map_claude_model_to_gemini input ≡ some v =
            rw (map_claude_model_to_gemini, f) refl in
          let again : map_claude_model_to_gemini v ≡ some v =
            rw (map_claude_model_to_gemini, lookup_twice input v f) refl in
          subst (λ o. map_claude_model_to_gemini (unwrap_or o v) ≡ o) (sym same ∙ e) again
      | inl n ↦
          let open_name : map_claude_model_to_gemini input
              ≡ (if passes_through input then some input else none) =
            rw (map_claude_model_to_gemini, n) refl in
          let same : mapped ≡ input = let k = open_name in ground arith in
          subst (λ m. map_claude_model_to_gemini m ≡ some m) (sym same) (e ∙ ap some same)
    ]

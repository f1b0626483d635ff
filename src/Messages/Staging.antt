-- ===== src/Messages/Staging.antt =====
-- The four lists that a pass over the blocks of a message fills, one after the other.
use antigravity_server.Messages.{
  ContentBlock, Stage, in_stage, left_out, other_blocks, place, stage_of, staged, text_blocks,
  thinking_blocks, tool_blocks,
}
use antigravity_server.Prelude.{
  append_nil, ℕ, ◌≡◌, ◌≢◌, ◌≤◌, ◌<◌, refl, sym, ap, ap₂, ◌∙◌, subst, Bool, true, false, List, [],
  ◌∷◌, ◌++◌, Bool-cases, inl, inr, ◌==◌, All, All-map, filter, filter-All, filter-keep, filter-drop,
  arith,
}

-- Each block stands at its place or later than all before it.
abbrev pub IsPlaced : List ContentBlock → Type 0
IsPlaced [] = Unit
IsPlaced (b ∷ bs) = All (λ c. place (stage_of b) ≤ place (stage_of c)) bs × IsPlaced bs

filter-append {ℓ} :
    {A : Type ℓ} (p : A → Bool) (xs ys : List A) → filter p (xs ++ ys) ≡ filter p xs ++ filter p ys
unfolding filter
filter-append p [] ys = refl
filter-append p (x ∷ xs) ys = elim (Bool-cases (p x)) [
  | inl t ↦
      filter-keep p x (xs ++ ys) t
      ∙ ap (λ r. x ∷ r) (filter-append p xs ys)
      ∙ ap (λ r. r ++ filter p ys) (sym (filter-keep p x xs t))
  | inr f ↦
      filter-drop p x (xs ++ ys) f
      ∙ filter-append p xs ys
      ∙ ap (λ r. r ++ filter p ys) (sym (filter-drop p x xs f))
]

filter-filter {ℓ} : {A : Type ℓ} (p : A → Bool) (xs : List A) → filter p (filter p xs) ≡ filter p xs
unfolding filter
filter-filter p [] = refl
filter-filter p (x ∷ xs) = elim (Bool-cases (p x)) [
  | inl t ↦
      ap (filter p) (filter-keep p x xs t)
      ∙ filter-keep p x (filter p xs) t
      ∙ ap (λ r. x ∷ r) (filter-filter p xs)
      ∙ sym (filter-keep p x xs t)
  | inr f ↦ ap (filter p) (filter-drop p x xs f) ∙ filter-filter p xs ∙ sym (filter-drop p x xs f)
]

filter_none {ℓ} :
    {A : Type ℓ} (p q : A → Bool) (xs : List A)
    → ((x : A) → q x ≡ true → p x ≡ false)
    → filter p (filter q xs) ≡ []
unfolding filter
filter_none p q [] apart = refl
filter_none p q (x ∷ xs) apart = elim (Bool-cases (q x)) [
  | inl t ↦
      ap (filter p) (filter-keep q x xs t)
      ∙ filter-drop p x (filter q xs) (apart x t)
      ∙ filter_none p q xs apart
  | inr f ↦ ap (filter p) (filter-drop q x xs f) ∙ filter_none p q xs apart
]

in_stage-in_stage :
    (s t : Stage) (bs : List ContentBlock) → place s ≢ place t → in_stage s (in_stage t bs) ≡ []
in_stage-in_stage s t bs apart =
    filter_none (λ b. place (stage_of b) == place s) (λ b. place (stage_of b) == place t) bs
      (λ b e. ground arith)

in_stage-staged :
    (s : Stage) (bs a b c d : List ContentBlock)
    → in_stage s (in_stage thinking_blocks bs) ≡ a
    → in_stage s (in_stage text_blocks bs) ≡ b
    → in_stage s (in_stage other_blocks bs) ≡ c
    → in_stage s (in_stage tool_blocks bs) ≡ d
    → in_stage s (staged bs) ≡ a ++ (b ++ (c ++ d))
unfolding staged
in_stage-staged s bs a b c d ea eb ec ed =
    let p = λ (x : ContentBlock). place (stage_of x) == place s in
    filter-append p (in_stage thinking_blocks bs) _
    ∙ ap₂ (λ x y. x ++ y) ea
        (filter-append p (in_stage text_blocks bs) _
          ∙ ap₂ (λ x y. x ++ y) eb
              (filter-append p (in_stage other_blocks bs) (in_stage tool_blocks bs)
                ∙ ap₂ (λ x y. x ++ y) ec ed))

same : (s : Stage) (bs : List ContentBlock) → in_stage s (in_stage s bs) ≡ in_stage s bs
same s bs = filter-filter (λ b. place (stage_of b) == place s) bs

pub staged-keeps :
    (s : Stage) (bs : List ContentBlock) → place s < 4 → in_stage s (staged bs) ≡ in_stage s bs
staged-keeps thinking_blocks bs le =
    let apart = λ (t : Stage). in_stage-in_stage thinking_blocks t bs in
    in_stage-staged thinking_blocks bs _ [] [] [] (same thinking_blocks bs)
      (apart text_blocks (omega arith)) (apart other_blocks (omega arith))
      (apart tool_blocks (omega arith))
    ∙ append_nil (in_stage thinking_blocks bs)
staged-keeps text_blocks bs le =
    let apart = λ (t : Stage). in_stage-in_stage text_blocks t bs in
    in_stage-staged text_blocks bs [] _ [] [] (apart thinking_blocks (omega arith))
      (same text_blocks bs) (apart other_blocks (omega arith)) (apart tool_blocks (omega arith))
    ∙ append_nil (in_stage text_blocks bs)
staged-keeps other_blocks bs le =
    let apart = λ (t : Stage). in_stage-in_stage other_blocks t bs in
    in_stage-staged other_blocks bs [] [] _ [] (apart thinking_blocks (omega arith))
      (apart text_blocks (omega arith)) (same other_blocks bs) (apart tool_blocks (omega arith))
    ∙ append_nil (in_stage other_blocks bs)
staged-keeps tool_blocks bs le =
    let apart = λ (t : Stage). in_stage-in_stage tool_blocks t bs in
    in_stage-staged tool_blocks bs [] [] [] _ (apart thinking_blocks (omega arith))
      (apart text_blocks (omega arith)) (apart other_blocks (omega arith)) (same tool_blocks bs)
staged-keeps left_out bs le = absurd (omega arith)

-- Blocks of one place before blocks of that place or later ones.
ranks :
    (n : ℕ) (xs ys : List ContentBlock)
    → All (λ b. place (stage_of b) ≡ n) xs
    → All (λ b. n ≤ place (stage_of b)) ys × IsPlaced ys
    → All (λ b. n ≤ place (stage_of b)) (xs ++ ys) × IsPlaced (xs ++ ys)
ranks n [] ys a r = r
ranks n (x ∷ xs) ys a r =
    let rest = ranks n xs ys a.1 r in
    ((omega arith, rest.0), (All-map (xs ++ ys) (λ b le. omega arith) rest.0, rest.1))

pub at_place :
    (s : Stage) (bs : List ContentBlock)
    → All (λ b. (place (stage_of b) == place s) ≡ true → place (stage_of b) ≡ place s) bs
at_place s [] = tt
at_place s (b ∷ bs) = ((λ e. ground arith), at_place s bs)

before :
    (s : Stage) (bs rest : List ContentBlock)
    → All (λ b. place s ≤ place (stage_of b)) rest × IsPlaced rest
    → All (λ b. place s ≤ place (stage_of b)) (in_stage s bs ++ rest)
      × IsPlaced (in_stage s bs ++ rest)
before s bs rest r =
    ranks (place s) (in_stage s bs) rest
      (filter-All (λ b. place (stage_of b) ≡ place s) (λ b. place (stage_of b) == place s) bs
        (at_place s bs))
      r

earlier :
    (m n : ℕ) (bs : List ContentBlock)
    → m ≤ n
    → All (λ b. n ≤ place (stage_of b)) bs × IsPlaced bs
    → All (λ b. m ≤ place (stage_of b)) bs × IsPlaced bs
earlier m n bs le r = (All-map bs (λ b h. omega arith) r.0, r.1)

pub staged-IsPlaced : (bs : List ContentBlock) → IsPlaced (staged bs)
unfolding staged
staged-IsPlaced bs =
    let tools = in_stage tool_blocks bs in
    let r3 =
      subst (λ l. All (λ b. 3 ≤ place (stage_of b)) l × IsPlaced l) (append_nil tools)
        (before tool_blocks bs [] (tt, tt)) in
    let r2 = before other_blocks bs tools (earlier 2 3 tools (omega arith) r3) in
    let others = in_stage other_blocks bs ++ tools in
    let r1 = before text_blocks bs others (earlier 1 2 others (omega arith) r2) in
    let texts = in_stage text_blocks bs ++ others in
    (before thinking_blocks bs texts (earlier 0 1 texts (omega arith) r1)).1

pub filter_same {ℓ} :
    {A : Type ℓ} (p q : A → Bool) (xs : List A) → ((x : A) → p x ≡ q x) → filter p xs ≡ filter q xs
filter_same p q xs same = ap (λ r. filter r xs) (λ i. λ x. same x i)

-- ===== src/Prelude/Text.antt =====
-- A Rust `String` as the list of its characters' code points.
-- `str` comparison is by bytes of UTF-8, which orders texts as their code points do.
use Prim.Native.Char.{code}
use Prim.Native.String.{String}
use Prim.Native.Nat.{ℕ, compare, Ordering, ◌+◌, ◌-◌, ◌*◌}
use mathlib.Core.List.{List, [], ◌∷◌}
use mathlib.Core.Bool.{Bool, true, false, ◌||◌, ◌&&◌}
use mathlib.Core.Option.{Option, none, some}
use native.Mathlib.Decide.{ℕ_discrete}
use antigravity_server.Prelude.Tests.{leb, ◌==◌, if◌then◌else◌, u64_max}

abbrev pub Text : Type 0
Text = List ℕ

unfoldable pub Text-discrete : Discrete Text
unfolding ℕ_discrete
Text-discrete = hlevel ℕ_discrete

-- A literal.
abbrev pub text : String → Text
text String.[] = []
text (String.◌∷◌ c s) = code c ∷ text s

-- `a > b` of `str`.
unfoldable pub text_gt : Text → Text → Bool
text_gt [] ys = false
text_gt (x ∷ xs) [] = true
text_gt (x ∷ xs) (y ∷ ys) = elim (compare x y) [
  | Ordering.lt ↦ false
  | Ordering.eq ↦ text_gt xs ys
  | Ordering.gt ↦ true
]

unfoldable pub starts_with : Text → Text → Bool
starts_with s [] = true
starts_with [] (p ∷ ps) = false
starts_with (c ∷ s) (p ∷ ps) = elim (compare c p) [ Ordering.eq ↦ starts_with s ps | _ ↦ false ]

-- `str::contains`
unfoldable pub contains : Text → Text → Bool
unfolding starts_with
contains [] p = starts_with [] p
contains (c ∷ s) p = starts_with (c ∷ s) p || contains s p

-- White space in the sense of Unicode, which `str::trim` strips.
is_whitespace : ℕ → Bool
is_whitespace c =
    (leb 9 c && leb c 13)
    || c == 32
    || c == 133
    || c == 160
    || c == 5760
    || (leb 8192 c && leb c 8202)
    || c == 8232
    || c == 8233
    || c == 8239
    || c == 8287
    || c == 12288

unfoldable pub trim_start : Text → Text
unfolding is_whitespace
trim_start [] = []
trim_start (c ∷ s) = elim (is_whitespace c) [ true ↦ trim_start s | false ↦ c ∷ s ]

unfoldable pub trim_end : Text → Text
unfolding is_whitespace
trim_end [] = []
trim_end (c ∷ s) = keep (trim_end s)
  where
    keep : Text → Text
    keep [] = elim (is_whitespace c) [ true ↦ [] | false ↦ c ∷ [] ]
    keep (d ∷ r) = c ∷ d ∷ r

unfoldable pub trim : Text → Text
unfolding trim_start trim_end
trim s = trim_end (trim_start s)

is_digit : ℕ → Bool
is_digit c = leb b'0' c && leb c b'9'

-- The digits of a `u64` after what is read so far; an overflow is an error.
digits_value : ℕ → Text → Option ℕ
unfolding is_digit
digits_value n [] = some n
digits_value n (c ∷ s) =
    let n' = n * 10 + (c - b'0') in
    let rest = digits_value n' s in if is_digit c && leb n' u64_max then rest else none

-- `str::parse::<u64>`: a sign `+` is allowed, an empty text is not.
unfoldable pub parse_u64 : Text → Option ℕ
unfolding digits_value
parse_u64 [] = none
parse_u64 (c ∷ []) = digits_value 0 (c ∷ [])
parse_u64 (c ∷ d ∷ s) = if c == b'+' then digits_value 0 (d ∷ s) else digits_value 0 (c ∷ d ∷ s)

-- `str::len`: the bytes of UTF-8.
unfoldable pub len : Text → ℕ
len [] = 0
len (c ∷ s) =
    let rest = len s in
    (if leb c 127 then 1 else if leb c 2047 then 2 else if leb c 65535 then 3 else 4) + rest

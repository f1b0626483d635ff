-- ===== src/Json.antt =====
-- `serde_json::Value` and the accessors that the program uses.
use antigravity_server.Prelude.Text.{Text, Text-discrete}
use antigravity_server.Prelude.{Bool, Option, ite, none, some, ℕ}

-- A number shows its value only where it is a `u64`.
mutual
  pub data Json : Type 0 where
    null : Json
    boolean : Bool → Json
    number : Option ℕ → Json
    string : Text → Json
    array : Items → Json
    object : Fields → Json

  pub data Items : Type 0 where
    nil : Items
    cons : Json → Items → Items

  pub data Fields : Type 0 where
    end : Fields
    field : Text → Json → Fields → Fields

infixl 5 ◌>>=◌
abbrev pub ◌>>=◌ {ℓ κ} : {A : Type ℓ} {B : Type κ} → Option A → (A → Option B) → Option B
none >>= f = none
some a >>= f = f a

unfoldable pub get_field : Text → Fields → Option Json
unfolding Text-discrete
get_field k end = none
get_field k (field j v fs) = ite (Text-discrete j k) (some v) (get_field k fs)

unfoldable pub get : Text → Json → Option Json
unfolding get_field
get k (object fs) = get_field k fs
get k _ = none

unfoldable pub as_array : Json → Option Items
as_array (array xs) = some xs
as_array _ = none

unfoldable pub first : Items → Option Json
first nil = none
first (cons x xs) = some x

unfoldable pub as_str : Json → Option Text
as_str (string s) = some s
as_str _ = none

unfoldable pub as_u64 : Json → Option ℕ
as_u64 (number n) = n
as_u64 _ = none

-- `serde_json::from_str`, which the development does not implement.
abbrev pub FromStr : Type 0
FromStr = Text → Option Json

-- ===== src/Messages/CacheControl.antt =====
-- `deep_clean_cache_control` of
-- crates/antigravity-core/src/proxy/mappers/claude/request/message_cleaning.rs.
use antigravity_server.Json.{
  Fields, Items, Json, array, boolean, cons, end, field, nil, null, number, object, string,
}
use antigravity_server.Prelude.Text.{Text, Text-discrete, text}
use antigravity_server.Prelude.{◌≢◌, ite, if_pos, if_neg, subst, sym}

abbrev cache_control : Text
cache_control = text "cache_control"

-- `Map::remove`; a map of serde_json has each key once, and every field of the name goes.
unfoldable pub remove_field : Text → Fields → Fields
unfolding Text-discrete
remove_field k end = end
remove_field k (field j v fs) =
    let rest = remove_field k fs in ite (Text-discrete j k) rest (field j v rest)

unfoldable mutual
  pub clean_value : Json → Json
  clean_value (object fs) = object (remove_field cache_control (clean_fields fs))
  clean_value (array xs) = array (clean_items xs)
  clean_value null = null
  clean_value (boolean b) = boolean b
  clean_value (number n) = number n
  clean_value (string s) = string s

  pub clean_items : Items → Items
  clean_items nil = nil
  clean_items (cons x xs) = cons (clean_value x) (clean_items xs)

  pub clean_fields : Fields → Fields
  clean_fields end = end
  clean_fields (field j v fs) = field j (clean_value v) (clean_fields fs)

unfoldable pub deep_clean_cache_control : Json → Json
unfolding clean_value
deep_clean_cache_control value = clean_value value

-- No object in a value has the key.
unfoldable mutual
  pub IsClean : Json → Type 0
  IsClean (object fs) = IsCleanFields fs
  IsClean (array xs) = IsCleanItems xs
  IsClean null = Unit
  IsClean (boolean b) = Unit
  IsClean (number n) = Unit
  IsClean (string s) = Unit

  pub IsCleanItems : Items → Type 0
  IsCleanItems nil = Unit
  IsCleanItems (cons x xs) = IsClean x × IsCleanItems xs

  pub IsCleanFields : Fields → Type 0
  IsCleanFields end = Unit
  IsCleanFields (field j v fs) = (j ≢ cache_control) × IsClean v × IsCleanFields fs

-- The fields' values are clean.
abbrev AllClean : Fields → Type 0
AllClean end = Unit
AllClean (field j v fs) = IsClean v × AllClean fs

remove_field-IsCleanFields :
    (fs : Fields) → AllClean fs → IsCleanFields (remove_field cache_control fs)
unfolding remove_field IsClean
remove_field-IsCleanFields end c = tt
remove_field-IsCleanFields (field j v fs) c =
    let rest = remove_field-IsCleanFields fs c.1 in
    elim (Text-discrete j cache_control) [
      | yes e ↦ subst IsCleanFields (sym (if_pos (Text-discrete j cache_control) e _ _)) rest
      | no d ↦
          subst IsCleanFields (sym (if_neg (Text-discrete j cache_control) d _ _)) (d, c.0, rest)
    ]

mutual
  unfolding clean_value IsClean

  clean_value-IsClean : (v : Json) → IsClean (clean_value v)
  clean_value-IsClean (object fs) =
      remove_field-IsCleanFields (clean_fields fs) (clean_fields-AllClean fs)
  clean_value-IsClean (array xs) = clean_items-IsCleanItems xs
  clean_value-IsClean null = tt
  clean_value-IsClean (boolean b) = tt
  clean_value-IsClean (number n) = tt
  clean_value-IsClean (string s) = tt

  clean_items-IsCleanItems : (xs : Items) → IsCleanItems (clean_items xs)
  clean_items-IsCleanItems nil = tt
  clean_items-IsCleanItems (cons x xs) = (clean_value-IsClean x, clean_items-IsCleanItems xs)

  clean_fields-AllClean : (fs : Fields) → AllClean (clean_fields fs)
  clean_fields-AllClean end = tt
  clean_fields-AllClean (field j v fs) = (clean_value-IsClean v, clean_fields-AllClean fs)

-- After a deep clean no object at any depth has the key `cache_control`.
pub deep_clean_cache_control-IsClean : (v : Json) → IsClean (deep_clean_cache_control v)
unfolding deep_clean_cache_control
deep_clean_cache_control-IsClean v = clean_value-IsClean v

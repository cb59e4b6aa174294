-- ===== src/Redis/Item.antt =====
-- The items of the table as connectors/redis-dynamodb/connector.go builds and reads them: a map from
-- attribute names to `any`. What was written comes back at the same type, numbers as numbers.
use go_temporal_ai_sdk.Prelude.{
  ℤ, String, ◌≡◌, refl, Bool, true, false, Option, none, some, List, [], ◌∷◌, ◌==◌, eq_iff, lookup,
  arith, if◌then◌else◌,
}
use go_temporal_ai_sdk.Updates.Types.{
  Value, Snapshot, Scope, PreviewManifest, WorkflowRecord, UpdateEvent,
}

pub data Attr : Type 0 where
  nil : Attr
  str : String → Attr
  num : ℤ → Attr
  json : Value → Attr
  snapshot : Snapshot → Attr
  scope : Scope → Attr
  manifest : PreviewManifest → Attr
  workflow_record : WorkflowRecord → Attr
  event : UpdateEvent → Attr

abbrev pub Item : Type 0
Item = List (String × Attr)

abbrev pub text_of : Option Attr → String
text_of none = ""
text_of (some (str s)) = s
text_of (some _) = ""

abbrev pub number_of : Option Attr → Option ℤ
number_of none = none
number_of (some (num n)) = some n
number_of (some _) = none

-- stringField; a missing item is a nil map.
unfoldable pub string_field : Option Item → String → String
string_field none key = ""
string_field (some item) key = if key == "" then "" else text_of (lookup key item)

-- redisIntField: `none` is `ok == false`.
unfoldable pub int_field : Option Item → String → Option ℤ
int_field none key = none
int_field (some item) key = number_of (lookup key item)

-- `value == nil || value == ""`
abbrev pub is_blank : Attr → Bool
is_blank nil = true
is_blank (str s) = s == ""
is_blank _ = false

without : String → Item → Item
without k [] = []
without k ((j, v) ∷ m) = let rest = without k m in if j == k then rest else (j, v) ∷ rest

-- cleanMap
pub clean_map : Item → Item
unfolding without
clean_map [] = []
clean_map ((k, v) ∷ m) =
    let rest = without k (clean_map m) in if is_blank v then rest else (k, v) ∷ rest

lookup-without :
    (k j : String) (m : Item) → lookup j (without k m) ≡ (if k == j then none else lookup j m)
unfolding lookup without
lookup-without k j [] = ground arith
lookup-without k j ((i, v) ∷ m) =
    ground (arith, lookup-without k j m, eq_iff i k, eq_iff i j, eq_iff k j)

abbrev pub unless_blank : Option Attr → Option Attr
unless_blank none = none
unless_blank (some v) = if is_blank v then none else some v

pub lookup-clean_map : (j : String) (m : Item) → lookup j (clean_map m) ≡ unless_blank (lookup j m)
unfolding lookup clean_map
lookup-clean_map j [] = refl
lookup-clean_map j ((k, v) ∷ m) =
    ground (arith, lookup-without k j (clean_map m), lookup-clean_map j m, eq_iff k j)

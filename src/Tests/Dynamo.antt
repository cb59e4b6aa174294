-- ===== src/Tests/Dynamo.antt =====
-- A table that evaluates conditions as DynamoDB documents them, and a connector to test with.
use go_temporal_ai_sdk.Prelude.{
  ℤ, pos, ltb_ℤ, eqb_ℤ, String, ◌≡◌, refl, ap, ◌⊎◌, Bool, true, false, not, ◌&&◌, ◌||◌, Option,
  none, some, ◌==◌, eq_iff, arith, if◌then◌else◌,
}
use go_temporal_ai_sdk.Redis.Options.{Options}
use go_temporal_ai_sdk.Redis.Item.{Attr, Item, str, num}
use go_temporal_ai_sdk.Redis.Prog.{
  Condition, always, not_exists, exists, less, equals, both, either, Encoding,
}
use go_temporal_ai_sdk.Redis.Table.{Conditions, attribute, eqb_ℤ-eq}

abbrev is_none {ℓ} : {A : Type ℓ} → Option A → Bool
is_none none = true
is_none (some _) = false

abbrev attr_eq : Option Attr → Attr → Bool
attr_eq (some (num m)) (num n) = eqb_ℤ m n
attr_eq (some (str s)) (str t) = s == t
attr_eq _ _ = false

abbrev attr_less : Option Attr → Attr → Bool
attr_less (some (num m)) (num n) = ltb_ℤ m n
attr_less _ _ = false

module _ (pk : String) where
  abbrev evaluate : Condition → Option Item → Bool
  evaluate always i = true
  evaluate (not_exists name) i = if name == pk then is_none i else is_none (attribute i name)
  evaluate (exists name) i =
      if name == pk then not (is_none i) else not (is_none (attribute i name))
  evaluate (less name v) i = attr_less (attribute i name) v
  evaluate (equals name v) i = attr_eq (attribute i name) v
  evaluate (both c d) i = evaluate c i && evaluate d i
  evaluate (either c d) i = evaluate c i || evaluate d i

  nothing : {A : Type 0} (o : Option A) → is_none o ≡ true → o ≡ none
  nothing none h = refl
  nothing (some a) h = cc h

  pub evaluate-absent :
      (name : String) (i : Option Item)
      → evaluate (not_exists name) i ≡ true
      → attribute i name ≡ none
  evaluate-absent name none h = refl
  evaluate-absent name (some item) h = ground (arith, nothing (attribute (some item) name))

  pub evaluate-no_item : (i : Option Item) → evaluate (not_exists pk) i ≡ true → i ≡ none
  evaluate-no_item none h = refl
  evaluate-no_item (some item) h = ground (arith, eq_iff pk pk)

  pub less-num :
      (a : Option Attr) (n : ℤ)
      → attr_less a (num n) ≡ true
      → (m : ℤ) × (a ≡ some (num m)) × (ltb_ℤ m n ≡ true)
  less-num (some (num m)) n h = (m, refl, h)
  less-num a n h = cc h

  pub eq-attr : (a : Option Attr) (v : Attr) → attr_eq a v ≡ true → a ≡ some v
  eq-attr (some (num m)) (num n) h = ap (λ x. some (num x)) (eqb_ℤ-eq m n h)
  eq-attr (some (str s)) (str t) h = ap (λ x. some (str x)) ((eq_iff s t).0 h)
  eq-attr a v h = cc h

  pub split-both :
      (c d : Condition) (i : Option Item)
      → evaluate (both c d) i ≡ true
      → (evaluate c i ≡ true) × (evaluate d i ≡ true)
  split-both c d i h = ground (arith, h)

  pub split-either :
      (c d : Condition) (i : Option Item)
      → evaluate (either c d) i ≡ true
      → (evaluate c i ≡ true) ⊎ (evaluate d i ≡ true)
  split-either c d i h = ground (arith, h)

  unfoldable pub dynamo : Conditions pk
  dynamo = record {
    holds = evaluate;
    absent = evaluate-absent;
    no_item = evaluate-no_item;
    smaller = λ name n i h. less-num (attribute i name) n h;
    equal = λ name v i h. eq-attr (attribute i name) v h;
    conjuncts = split-both;
    disjunct = split-either;
  }

abbrev pub options : Options
options = record {
  has_redis = true;
  has_resolver = false;
  disabled = true;
  partition_key = "";
  sort_key = "";
  state_sort = pos 0;
  ttl_seconds = pos 0;
  event_entity = "";
  preview_entity = "";
  record_entity = "";
  terminal_entity = "";
  event_stream_key = "";
  event_cursor_key = "";
  preview_stream_key = "";
  preview_time_key = "";
  record_stream_key = "";
  record_time_key = "";
  mode_name = "";
  channel_base = "";
  stream_base = "";
  max_stream_length = pos 0;
}

abbrev pub plain : Encoding
plain = record {
  record_payload = λ r attempt. r.status;
  event_payload = λ e. "event";
  stored_payload = λ e. "event";
  sha256_hex = λ s. s;
}

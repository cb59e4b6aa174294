-- ===== src/Redis/Table.antt =====
-- Any number of calls of the Redis connector's methods at work on one DynamoDB table. Each step lets
-- one of them make its next call; what the services answer is open, but a read that succeeds gives
-- the item, a write happens only if its condition holds, and a write whose answer is an error may have
-- happened or not.
use go_temporal_ai_sdk.Prelude.{
  ℤ, pos, negsuc, ltb_ℤ, eqb_ℤ, String, ◌≡◌, ◌⊎◌, Bool, true, false, ◌&&◌, Option, none, some, List,
  [], ◌∷◌, ◌++◌, ◌==◌, eq_iff, lookup, arith, if◌then◌else◌,
}
use go_temporal_ai_sdk.Updates.Types.{
  PreviewBeginEvent, PreviewSnapshotEvent, PreviewEndEvent, RecordUpsertEvent, StreamEndEvent,
  UpdateEvent,
}
use go_temporal_ai_sdk.Updates.Errors.{Err}
use go_temporal_ai_sdk.Redis.Options.{Options, partition_key_name}
use go_temporal_ai_sdk.Redis.Item.{Attr, Item, num}
use go_temporal_ai_sdk.Redis.Prog.{
  Result, ok, err, Key, StreamRef, Condition, not_exists, less, equals, both, either, Written,
  stored, condition_failed, failed, Time, XAddArgs, Prog, resolve_stream, get_item, put_item,
  update_item, time_now, new_event_id, redis_publish, redis_xadd, Encoding,
}
use go_temporal_ai_sdk.Redis.Preview.{insert_all}
use go_temporal_ai_sdk.Redis.Connector.{
  begin_preview, checkpoint_preview, end_preview, upsert_record, end_stream, publish_update,
}

abbrev pub Table : Type 0
Table = Key → Option Item

abbrev pub attribute : Option Item → String → Option Attr
attribute none name = none
attribute (some item) name = lookup name item

-- What DynamoDB documents of its condition expressions, for a table with partition key `pk`.
pub record Conditions (pk : String) : Type 0 where
  pub holds : Condition → Option Item → Bool
  pub absent :
      (name : String) (i : Option Item) → holds (not_exists name) i ≡ true → attribute i name ≡ none
  pub no_item : (i : Option Item) → holds (not_exists pk) i ≡ true → i ≡ none
  pub smaller :
      (name : String) (n : ℤ) (i : Option Item)
      → holds (less name (num n)) i ≡ true
      → (m : ℤ) × (attribute i name ≡ some (num m)) × (ltb_ℤ m n ≡ true)
  pub equal :
      (name : String) (v : Attr) (i : Option Item)
      → holds (equals name v) i ≡ true
      → attribute i name ≡ some v
  pub conjuncts :
      (c d : Condition) (i : Option Item)
      → holds (both c d) i ≡ true
      → (holds c i ≡ true) × (holds d i ≡ true)
  pub disjunct :
      (c d : Condition) (i : Option Item)
      → holds (either c d) i ≡ true
      → (holds c i ≡ true) ⊎ (holds d i ≡ true)

abbrev pub same_key : Key → Key → Bool
same_key j k = (j.id == k.id) && eqb_ℤ j.sort k.sort

abbrev pub write : Key → Item → Table → Table
write k item t j = if same_key j k then some item else t j

-- The item after `SET name = value, ...`.
abbrev pub set_attributes : Item → Option Item → Item
set_attributes changes none = insert_all changes []
set_attributes changes (some item) = insert_all changes item

pub eqb_ℤ-eq : (a b : ℤ) → eqb_ℤ a b ≡ true → a ≡ b
eqb_ℤ-eq (pos a) (pos b) h = ground arith
eqb_ℤ-eq (pos a) (negsuc b) h = ground arith
eqb_ℤ-eq (negsuc a) (pos b) h = ground arith
eqb_ℤ-eq (negsuc a) (negsuc b) h = ground arith

pub same_key-eq : (j k : Key) → same_key j k ≡ true → j ≡ k
same_key-eq j k h = ground (arith, eq_iff j.id k.id, eqb_ℤ-eq j.sort k.sort)

module _ {pk : String} (dynamo : Conditions pk) where
  -- One call of one program: what it leaves of the table and of the program.
  pub data Call {A : Type 0} : Table → Prog A → Table → Prog A → Type 0 where
    resolved :
        {t : Table} {s : String} {next : Result StreamRef → Prog A} (a : Result StreamRef)
        → Call t (resolve_stream s next) t (next a)
    got :
        {t : Table} {k : Key} {next : Result (Option Item) → Prog A}
        → Call t (get_item k next) t (next (ok (t k)))
    not_got :
        {t : Table} {k : Key} {next : Result (Option Item) → Prog A} (e : Err)
        → Call t (get_item k next) t (next (err e))
    put :
        {t : Table} {k : Key} {i : Item} {c : Condition} {next : Written → Prog A}
        → dynamo.holds c (t k) ≡ true
        → Call t (put_item k i c next) (write k i t) (next stored)
    put_refused :
        {t : Table} {k : Key} {i : Item} {c : Condition} {next : Written → Prog A}
        → dynamo.holds c (t k) ≡ false
        → Call t (put_item k i c next) t (next condition_failed)
    put_lost :
        {t : Table} {k : Key} {i : Item} {c : Condition} {next : Written → Prog A} (e : Err)
        → Call t (put_item k i c next) t (next (failed e))
    put_unanswered :
        {t : Table} {k : Key} {i : Item} {c : Condition} {next : Written → Prog A} (e : Err)
        → dynamo.holds c (t k) ≡ true
        → Call t (put_item k i c next) (write k i t) (next (failed e))
    updated :
        {t : Table} {k : Key} {i : Item} {c : Condition} {next : Written → Prog A}
        → dynamo.holds c (t k) ≡ true
        → Call t (update_item k i c next) (write k (set_attributes i (t k)) t) (next stored)
    update_refused :
        {t : Table} {k : Key} {i : Item} {c : Condition} {next : Written → Prog A}
        → dynamo.holds c (t k) ≡ false
        → Call t (update_item k i c next) t (next condition_failed)
    update_lost :
        {t : Table} {k : Key} {i : Item} {c : Condition} {next : Written → Prog A} (e : Err)
        → Call t (update_item k i c next) t (next (failed e))
    update_unanswered :
        {t : Table} {k : Key} {i : Item} {c : Condition} {next : Written → Prog A} (e : Err)
        → dynamo.holds c (t k) ≡ true
        → Call t (update_item k i c next) (write k (set_attributes i (t k)) t) (next (failed e))
    told_time : {t : Table} {next : Time → Prog A} (a : Time) → Call t (time_now next) t (next a)
    named :
        {t : Table} {next : String → Prog A} (a : String) → Call t (new_event_id next) t (next a)
    published :
        {t : Table} {ch : String} {e : UpdateEvent} {next : Option Err → Prog A} (a : Option Err)
        → Call t (redis_publish ch e next) t (next a)
    added :
        {t : Table} {x : XAddArgs} {next : Option Err → Prog A} (a : Option Err)
        → Call t (redis_xadd x next) t (next a)

-- The calls that clients make: the methods of Connector.
pub data Request : Type 0 where
  begin : PreviewBeginEvent → Request
  snapshot : PreviewSnapshotEvent → Request
  end : PreviewEndEvent → Request
  upsert : RecordUpsertEvent → Request
  end_of_stream : StreamEndEvent → Request
  publish : UpdateEvent → Request

module _ (o : Options) (enc : Encoding) where
  abbrev pub method : Request → Prog (Unit {0})
  method (begin e) = begin_preview o e
  method (snapshot e) = checkpoint_preview o e
  method (end e) = end_preview o e
  method (upsert e) = upsert_record o enc e
  method (end_of_stream e) = end_stream o enc e
  method (publish e) = publish_update o e

  module _ (dynamo : Conditions (partition_key_name o)) where
    -- The table and the methods under way: a client starts one, or one of them makes a call.
    pub data Reaches (t : Table) : Table → List (Prog (Unit {0})) → Type 0 where
      idle : Reaches t t []
      start :
          {t' : Table} {running : List (Prog (Unit {0}))} (r : Request)
          → Reaches t t' running
          → Reaches t t' (method r ∷ running)
      step :
          {t₁ t₂ : Table} {p q : Prog (Unit {0})} (before after : List (Prog (Unit {0})))
          → Reaches t t₁ (before ++ p ∷ after)
          → Call dynamo t₁ p t₂ q
          → Reaches t t₂ (before ++ q ∷ after)

-- ===== src/Redis/Prog.antt =====
-- The connector's methods as programs over the calls that they make: DynamoDB, Redis, the resolver,
-- the clock and the source of cursors. A program waits for the answer of a call and goes on with it,
-- so what holds of a program holds whatever the services answer and whatever else goes on between
-- two calls. A write names the key that its item has; a resolver whose replay attributes replace the
-- key attributes of an item is left out. A failure to marshal an item, or to unmarshal one, is an error of the call it is made for.
use go_temporal_ai_sdk.Prelude.{ℤ, String, Option, none, some}
use go_temporal_ai_sdk.Updates.Types.{UpdateEvent, WorkflowRecord}
use go_temporal_ai_sdk.Updates.Errors.{Err}
use go_temporal_ai_sdk.Redis.Item.{Attr, Item}

pub data Result (A : Type 0) : Type 0 where
  ok : A → Result A
  err : Err → Result A

-- The partition key and the sort key of an item.
pub record Key : Type 0 where
  pub id : String
  pub sort : ℤ

pub record StreamRef : Type 0 where
  pub channel : String
  pub redis_stream : String
  pub replay_attributes : Item

-- A condition expression, its names and values put in.
pub data Condition : Type 0 where
  always : Condition
  not_exists : String → Condition
  exists : String → Condition
  less : String → Attr → Condition
  equals : String → Attr → Condition
  both : Condition → Condition → Condition
  either : Condition → Condition → Condition

-- What a write answers: done, ConditionalCheckFailedException, or another error.
pub data Written : Type 0 where
  stored : Written
  condition_failed : Written
  failed : Err → Written

pub record Time : Type 0 where
  pub unix : ℤ
  pub unix_milli : ℤ

pub record XAddArgs : Type 0 where
  pub stream : String
  pub event_id : String
  pub cursor : String
  pub stream_id : String
  pub payload : UpdateEvent
  pub max_len : Option ℤ

pub data Prog (A : Type 0) : Type 0 where
  done : Result A → Prog A
  resolve_stream : String → (Result StreamRef → Prog A) → Prog A
  get_item : Key → (Result (Option Item) → Prog A) → Prog A
  put_item : Key → Item → Condition → (Written → Prog A) → Prog A
  update_item : Key → Item → Condition → (Written → Prog A) → Prog A
  time_now : (Time → Prog A) → Prog A
  new_event_id : (String → Prog A) → Prog A
  redis_publish : String → UpdateEvent → (Option Err → Prog A) → Prog A
  redis_xadd : XAddArgs → (Option Err → Prog A) → Prog A

abbrev pub return : {A : Type 0} → A → Prog A
return a = done (Result.ok a)

abbrev pub raise : {A : Type 0} → Err → Prog A
raise e = done (Result.err e)

-- `x, err := m; if err != nil { return err }` and the rest.
infixl 5 ◌>>=◌ ◌>>◌
unfoldable pub ◌>>=◌ : {A B : Type 0} → Prog A → (A → Prog B) → Prog B
done (Result.ok a) >>= f = f a
done (Result.err e) >>= f = done (Result.err e)
resolve_stream s next >>= f = resolve_stream s (λ a. next a >>= f)
get_item k next >>= f = get_item k (λ a. next a >>= f)
put_item k i c next >>= f = put_item k i c (λ a. next a >>= f)
update_item k i c next >>= f = update_item k i c (λ a. next a >>= f)
time_now next >>= f = time_now (λ a. next a >>= f)
new_event_id next >>= f = new_event_id (λ a. next a >>= f)
redis_publish ch e next >>= f = redis_publish ch e (λ a. next a >>= f)
redis_xadd args next >>= f = redis_xadd args (λ a. next a >>= f)

unfoldable pub ◌>>◌ : {B : Type 0} → Prog (Unit {0}) → Prog B → Prog B
m >> k = m >>= λ _. k

-- `return err`, where a nil error is success.
abbrev pub return_error : Option Err → Prog (Unit {0})
return_error none = return tt
return_error (some e) = raise e

abbrev pub give : {A : Type 0} → Result A → Prog A
give r = done r

-- JSON and SHA-256, which the repository only calls: the payload of a record with the attempt that
-- it accepts, of an event, and of a stored event as it is read back; and the digest in hex.
pub record Encoding : Type 0 where
  pub record_payload : WorkflowRecord → String → String
  pub event_payload : UpdateEvent → String
  pub stored_payload : UpdateEvent → String
  pub sha256_hex : String → String

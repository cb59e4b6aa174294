-- ===== src/Redis/Guard.antt =====
-- What every write of a program of connectors/redis-dynamodb satisfies, whatever the services answer,
-- and what follows for a table on which any number of the connector's methods are at work.
use mathlib.Core.Path.{subst}
use go_temporal_ai_sdk.Prelude.{
  String, ◌≡◌, sym, true, Option, some, List, [], ◌∷◌, ◌++◌, All, if_cases,
}
use go_temporal_ai_sdk.Updates.Errors.{Err}
use go_temporal_ai_sdk.Redis.Options.{Options, partition_key_name}
use go_temporal_ai_sdk.Redis.Item.{Item}
use go_temporal_ai_sdk.Redis.Prog.{
  StreamRef, Written, Time, Result, ok, err, Key, Condition, Prog, done, resolve_stream, get_item,
  put_item, update_item, time_now, new_event_id, redis_publish, redis_xadd, Encoding, ◌>>=◌,
}
use go_temporal_ai_sdk.Redis.Table
use go_temporal_ai_sdk.Redis.Table.{
  Table, Conditions, same_key, same_key-eq, write, set_attributes, Call, Request, method, Reaches,
}

module _ {pk : String} (dynamo : Conditions pk)
    (Le : Key → Option Item → Option Item → Type 0) where
  -- A write whose condition holds on the old item takes it to a later one.
  abbrev pub PutOk : Key → Item → Condition → Type 0
  PutOk k i c = (old : Option Item) → dynamo.holds c old ≡ true → Le k old (some i)

  abbrev pub UpdateOk : Key → Item → Condition → Type 0
  UpdateOk k i c =
      (old : Option Item) → dynamo.holds c old ≡ true → Le k old (some (set_attributes i old))

  abbrev pub Guarded : {A : Type 0} → Prog A → Type 0
  Guarded (done r) = Unit {0}
  Guarded (resolve_stream s next) = (a : Result StreamRef) → Guarded (next a)
  Guarded (get_item k next) = (a : Result (Option Item)) → Guarded (next a)
  Guarded (put_item k i c next) = PutOk k i c × ((a : Written) → Guarded (next a))
  Guarded (update_item k i c next) = UpdateOk k i c × ((a : Written) → Guarded (next a))
  Guarded (time_now next) = (a : Time) → Guarded (next a)
  Guarded (new_event_id next) = (a : String) → Guarded (next a)
  Guarded (redis_publish ch e next) = (a : Option Err) → Guarded (next a)
  Guarded (redis_xadd x next) = (a : Option Err) → Guarded (next a)

  pub bind-Guarded :
      {A B : Type 0} (m : Prog A) (f : A → Prog B)
      → Guarded m
      → ((a : A) → Guarded (f a))
      → Guarded (m >>= f)
  unfolding ◌>>=◌
  bind-Guarded (done (ok a)) f g h = h a
  bind-Guarded (done (err e)) f g h = tt
  bind-Guarded (resolve_stream s next) f g h = λ a. bind-Guarded (next a) f (g a) h
  bind-Guarded (get_item k next) f g h = λ a. bind-Guarded (next a) f (g a) h
  bind-Guarded (put_item k i c next) f g h = (g.0, λ a. bind-Guarded (next a) f (g.1 a) h)
  bind-Guarded (update_item k i c next) f g h = (g.0, λ a. bind-Guarded (next a) f (g.1 a) h)
  bind-Guarded (time_now next) f g h = λ a. bind-Guarded (next a) f (g a) h
  bind-Guarded (new_event_id next) f g h = λ a. bind-Guarded (next a) f (g a) h
  bind-Guarded (redis_publish ch e next) f g h = λ a. bind-Guarded (next a) f (g a) h
  bind-Guarded (redis_xadd x next) f g h = λ a. bind-Guarded (next a) f (g a) h

  abbrev pub Later : Table → Table → Type 0
  Later t t' = (k : Key) → Le k (t k) (t' k)

  module _ (stays : (k : Key) (i : Option Item) → Le k i i) where
    write-Later : (k : Key) (i : Item) (t : Table) → Le k (t k) (some i) → Later t (write k i t)
    write-Later k i t h j =
        if_cases (Le j (t j)) (same_key j k)
          (λ e. subst (λ n. Le n (t n) (some i)) (sym (same_key-eq j k e)) h) (λ _. stays j (t j))

    pub Call-Guarded :
        {A : Type 0} {t t' : Table} {p q : Prog A}
        → Call dynamo t p t' q
        → Guarded p
        → Guarded q × Later t t'
    Call-Guarded (Table.resolved a) g = (g a, λ k. stays k _)
    Call-Guarded Table.got g = (g _, λ k. stays k _)
    Call-Guarded (Table.not_got e) g = (g _, λ k. stays k _)
    Call-Guarded (Table.put h) g = (g.1 _, write-Later _ _ _ (g.0 _ h))
    Call-Guarded (Table.put_refused h) g = (g.1 _, λ k. stays k _)
    Call-Guarded (Table.put_lost e) g = (g.1 _, λ k. stays k _)
    Call-Guarded (Table.put_unanswered e h) g = (g.1 _, write-Later _ _ _ (g.0 _ h))
    Call-Guarded (Table.updated h) g = (g.1 _, write-Later _ _ _ (g.0 _ h))
    Call-Guarded (Table.update_refused h) g = (g.1 _, λ k. stays k _)
    Call-Guarded (Table.update_lost e) g = (g.1 _, λ k. stays k _)
    Call-Guarded (Table.update_unanswered e h) g = (g.1 _, write-Later _ _ _ (g.0 _ h))
    Call-Guarded (Table.told_time a) g = (g a, λ k. stays k _)
    Call-Guarded (Table.named a) g = (g a, λ k. stays k _)
    Call-Guarded (Table.published a) g = (g a, λ k. stays k _)
    Call-Guarded (Table.added a) g = (g a, λ k. stays k _)

All-at :
    {A : Type 0} (P : A → Type 0) (before after : List A) (x y : A)
    → All P (before ++ x ∷ after)
    → P x × (P y → All P (before ++ y ∷ after))
All-at P [] after x y h = (h.0, λ p. (p, h.1))
All-at P (b ∷ before) after x y h =
    let (px, rest) = All-at P before after x y h.1 in (px, λ p. (h.0, rest p))

-- If every method's writes go forward in a preorder of items, so does the whole table, whatever
-- number of methods are at work on it, in whatever order they make their calls.
pub Reaches-Later :
    {o : Options} {enc : Encoding} (dynamo : Conditions (partition_key_name o))
    (Le : Key → Option Item → Option Item → Type 0) (stays : (k : Key) (i : Option Item) → Le k i i)
    (then_on : (k : Key) (i j l : Option Item) → Le k i j → Le k j l → Le k i l)
    (guarded : (r : Request) → Guarded dynamo Le (method o enc r)) {t t' : Table}
    {running : List (Prog (Unit {0}))}
    → Reaches o enc dynamo t t' running
    → All (Guarded dynamo Le) running × Later dynamo Le t t'
Reaches-Later dynamo Le stays then_on guarded Table.idle = (tt, λ k. stays k _)
Reaches-Later dynamo Le stays then_on guarded (Table.start r h) =
    let (all, later) = Reaches-Later dynamo Le stays then_on guarded h in ((guarded r, all), later)
Reaches-Later dynamo Le stays then_on guarded (Table.step before after h c) =
    let (all, later) = Reaches-Later dynamo Le stays then_on guarded h in
    let (g, put_back) = All-at (Guarded dynamo Le) before after _ _ all in
    let (g', later') = Call-Guarded dynamo Le stays c g in
    (put_back g', λ k. then_on k _ _ _ (later k) (later' k))

-- ===== src/Redis/Growth.antt =====
-- What the conditional writes of connectors/redis-dynamodb/connector.go promise of the table, with any
-- number of clients at work on it: versions of records only grow, and durable events never change.
use mathlib.Core.Path.{subst}
use mathlib.Core.Option.{some-injective}
use go_temporal_ai_sdk.Prelude.{
  ℤ, pos, negsuc, ltb_ℤ, String, ◌≡◌, refl, sym, ap, ◌∙◌, ◌⊎◌, inl, inr, ◌==◌, eq_iff, true, false,
  Option, none, some, List, lookup-insert, arith, if◌then◌else◌,
}
use go_temporal_ai_sdk.Updates.Types.{RecordUpsertEvent, event_base}
use go_temporal_ai_sdk.Redis.Options.{
  Options, partition_key_name, record_stream_key_name, record_updated_at_key_name,
}
use go_temporal_ai_sdk.Redis.Item.{
  Item, str, num, clean_map, lookup-clean_map, int_field, string_field, text_of, number_of,
}
use go_temporal_ai_sdk.Redis.Prog.{Key, StreamRef, Encoding, Prog}
use go_temporal_ai_sdk.Redis.Records.{record_key, record_item, record_condition}
use go_temporal_ai_sdk.Redis.Events.{event_key}
use go_temporal_ai_sdk.Redis.Kinds.{
  first_code, preview_code, record_code, event_code, terminal_code, clash,
}
use go_temporal_ai_sdk.Redis.Table.{Table, Conditions, Reaches, attribute}
use go_temporal_ai_sdk.Redis.Guard.{Reaches-Later}
use go_temporal_ai_sdk.Redis.Writes.{WritesOk}
use go_temporal_ai_sdk.Redis.Methods.{method-Guarded}

-- The version, and what the same version must keep.
abbrev pub version_of : Option Item → Option ℤ
version_of item = int_field item "recordVersion"

abbrev pub SameWrite : Option Item → Option Item → Type 0
SameWrite i j =
    (string_field i "eventId" ≡ string_field j "eventId")
    × (string_field i "payloadHash" ≡ string_field j "payloadHash")

abbrev pub Grown : Option Item → ℤ → Option Item → Type 0
Grown old v new =
    (v' : ℤ) × (version_of new ≡ some v') × ((ltb_ℤ v v' ≡ true) ⊎ ((v ≡ v') × SameWrite old new))

-- At the key of a record, an item with a version is followed by a newer version, or by the same one
-- with the same event and the same payload.
abbrev pub Grows : Key → Option Item → Option Item → Type 0
Grows k old new = first_code k.id ≡ 114 → (v : ℤ) → version_of old ≡ some v → Grown old v new

-- At the key of an event, an item stays as it is.
abbrev pub Stays : Key → Option Item → Option Item → Type 0
Stays k old new = first_code k.id ≡ 101 → (i : Item) → old ≡ some i → new ≡ some i

pub ltb_ℤ-trans : (a b c : ℤ) → ltb_ℤ a b ≡ true → ltb_ℤ b c ≡ true → ltb_ℤ a c ≡ true
ltb_ℤ-trans (pos a) (pos b) (pos c) p q = ground arith
ltb_ℤ-trans (pos a) (pos b) (negsuc c) p q = ground arith
ltb_ℤ-trans (pos a) (negsuc b) (pos c) p q = ground arith
ltb_ℤ-trans (pos a) (negsuc b) (negsuc c) p q = ground arith
ltb_ℤ-trans (negsuc a) (pos b) (pos c) p q = ground arith
ltb_ℤ-trans (negsuc a) (pos b) (negsuc c) p q = ground arith
ltb_ℤ-trans (negsuc a) (negsuc b) (pos c) p q = ground arith
ltb_ℤ-trans (negsuc a) (negsuc b) (negsuc c) p q = ground arith

Grows-refl : (k : Key) (i : Option Item) → Grows k i i
Grows-refl k i kind v h = (v, h, inr (refl, (refl, refl)))

Grows-trans : (k : Key) (i j l : Option Item) → Grows k i j → Grows k j l → Grows k i l
Grows-trans k i j l f g kind v h =
    let (v', h', step) = f kind v h in
    let (v'', h'', step') = g kind v' h' in (v'', h'', join_steps step step')
  where
    join_steps :
        {v v' v'' : ℤ}
        → (ltb_ℤ v v' ≡ true) ⊎ ((v ≡ v') × SameWrite i j)
        → (ltb_ℤ v' v'' ≡ true) ⊎ ((v' ≡ v'') × SameWrite j l)
        → (ltb_ℤ v v'' ≡ true) ⊎ ((v ≡ v'') × SameWrite i l)
    join_steps {v} {v'} {v''} (inl p) (inl q) = inl (ltb_ℤ-trans v v' v'' p q)
    join_steps {v} {v'} {v''} (inl p) (inr (e, same)) = inl (subst (λ x. ltb_ℤ v x ≡ true) e p)
    join_steps {v} {v'} {v''} (inr (e, same)) (inl q) =
        inl (subst (λ x. ltb_ℤ x v'' ≡ true) (sym e) q)
    join_steps {v} {v'} {v''} (inr (e, (a, b))) (inr (e', (a', b'))) =
        inr (e ∙ e', (a ∙ a', b ∙ b'))

abbrev pub Apart : String → String → Type 0
Apart a b = (a == b) ≡ false

-- The configured names of two attributes are none of those that the condition on a version reads.
pub record NamesApart (o : Options) : Type 0 where
  pub stream_version : Apart (record_stream_key_name o) "recordVersion"
  pub stream_event : Apart (record_stream_key_name o) "eventId"
  pub stream_hash : Apart (record_stream_key_name o) "payloadHash"
  pub time_version : Apart (record_updated_at_key_name o) "recordVersion"
  pub time_event : Apart (record_updated_at_key_name o) "eventId"
  pub time_hash : Apart (record_updated_at_key_name o) "payloadHash"

cleaned_text : (s : String) → text_of (if s == "" then none else some (str s)) ≡ s
cleaned_text s = ground (arith, eq_iff s "")

-- What the fields are, once the attribute under them is known.
pub number_field :
    (i : Option Item) (name : String) (n : ℤ)
    → attribute i name ≡ some (num n)
    → int_field i name ≡ some n
unfolding int_field
number_field none name n h = cc h
number_field (some item) name n h = ap number_of h

absent_version :
    {A : Type 0} {v : ℤ} (i : Option Item)
    → attribute i "recordVersion" ≡ none
    → version_of i ≡ some v
    → A
unfolding int_field
absent_version none a h = cc h
absent_version (some item) a h = cc (sym (ap number_of a) ∙ h)

text_field :
    (i : Option Item) (name s : String)
    → (name == "") ≡ false
    → attribute i name ≡ some (str s)
    → string_field i name ≡ s
unfolding string_field
text_field none name s b h = ground (arith, h)
text_field (some item) name s b h = simp (b, h)

module _ (o : Options) (enc : Encoding) (names : NamesApart o) (ref : StreamRef) (key : Key)
    (e : RecordUpsertEvent) (hash : String) where
  abbrev saved : Option Item
  saved = some (clean_map (record_item o enc ref key e hash))

  saved_version : version_of saved ≡ some e.upserted.record_version
  unfolding int_field record_item
  saved_version = simp (lookup-clean_map, lookup-insert, names.stream_version, names.time_version)

  saved_event : string_field saved "eventId" ≡ e.base.event_id
  unfolding string_field record_item
  saved_event =
      simp (lookup-clean_map, lookup-insert, names.stream_event, names.time_event)
        (cleaned_text e.base.event_id)

  saved_hash : string_field saved "payloadHash" ≡ hash
  unfolding string_field record_item
  saved_hash =
      simp (lookup-clean_map, lookup-insert, names.stream_hash, names.time_hash) (cleaned_text hash)

  same_version :
      (dynamo : Conditions (partition_key_name o)) (old : Option Item) (v : ℤ)
      → version_of old ≡ some v
      → attribute old "recordVersion" ≡ some (num e.upserted.record_version)
      → attribute old "eventId" ≡ some (str e.base.event_id)
      → attribute old "payloadHash" ≡ some (str hash)
      → Grown old v saved
  same_version dynamo old v h n i p = (
    e.upserted.record_version,
    saved_version,
    inr (
      some-injective _ _ (sym h ∙ number_field old "recordVersion" e.upserted.record_version n),
      (
        text_field old "eventId" e.base.event_id refl i ∙ sym saved_event,
        text_field old "payloadHash" hash refl p ∙ sym saved_hash,
      ),
    ),
  )

  -- A write under the condition on the version goes forward.
  record-Grown :
      (dynamo : Conditions (partition_key_name o)) (old : Option Item) (v : ℤ)
      → dynamo.holds (record_condition e.upserted.record_version e.base.event_id hash) old ≡ true
      → version_of old ≡ some v
      → Grown old v saved
  record-Grown dynamo old v c h = elim (dynamo.disjunct _ _ old c) [
    | inl none_there ↦ absent_version old (dynamo.absent "recordVersion" old none_there) h
    | inr c' ↦ elim (dynamo.disjunct _ _ old c') [
      | inl newer ↦
          let (m, at, less_than) =
            dynamo.smaller "recordVersion" e.upserted.record_version old newer in
          (
            e.upserted.record_version,
            saved_version,
            inl (
                subst (λ x. ltb_ℤ x e.upserted.record_version ≡ true)
                  (some-injective _ _ (sym (number_field old "recordVersion" m at) ∙ h)) less_than),
          )
      | inr again ↦
          let (n, rest) = dynamo.conjuncts _ _ old again in
          let (i, p) = dynamo.conjuncts _ _ old rest in
          same_version dynamo old v h (dynamo.equal "recordVersion" _ old n)
            (dynamo.equal "eventId" _ old i) (dynamo.equal "payloadHash" _ old p)
    ]
  ]

module _ (o : Options) (enc : Encoding) (dynamo : Conditions (partition_key_name o)) where
  writes-Grows : NamesApart o → WritesOk o enc dynamo Grows
  writes-Grows names = record {
    previews =
        λ ref p now old c kind. clash 112 114 refl (preview_code o p.stream_id p.attempt_id) kind;
    acceptances = λ s a now later old c kind. clash 112 114 refl (preview_code o s a) kind;
    records = λ ref e hash old c kind v h. record-Grown o enc names ref _ e hash dynamo old v c h;
    events = λ ref e cursor now old c kind.
        clash 101 114 refl (event_code o (event_base e).stream_id (event_base e).event_id) kind;
    terminals =
        λ ref e old c kind. clash 116 114 refl (terminal_code o (event_base e).stream_id) kind;
  }

  -- Any number of clients call the methods of the connector on one table that evaluates conditions as
  -- DynamoDB documents; their calls interleave in any order, fail, or lose their answer. Then a record
  -- whose item has a version keeps one, the version never goes back, and while it is the same the item
  -- keeps its event identifier and its payload hash. The configured names of attributes are assumed to
  -- differ from the names of these three.
  pub record_versions_grow :
      (names : NamesApart o) {t t' : Table} {running : List (Prog (Unit {0}))}
      → Reaches o enc dynamo t t' running
      → (stream_id record_id : String) (v : ℤ)
      → version_of (t (record_key o enc stream_id record_id)) ≡ some v
      → Grown
          (t (record_key o enc stream_id record_id))
          v
          (t' (record_key o enc stream_id record_id))
  record_versions_grow names reached stream_id record_id v h =
      (Reaches-Later dynamo Grows Grows-refl Grows-trans
          (method-Guarded o enc dynamo Grows (writes-Grows names)) reached).1
        (record_key o enc stream_id record_id) (record_code o enc stream_id record_id) v h

  writes-Stays : WritesOk o enc dynamo Stays
  writes-Stays = record {
    previews =
        λ ref p now old c kind. clash 112 101 refl (preview_code o p.stream_id p.attempt_id) kind;
    acceptances = λ s a now later old c kind. clash 112 101 refl (preview_code o s a) kind;
    records = λ ref e hash old c kind.
        clash 114 101 refl (record_code o enc e.base.stream_id e.upserted.record_id) kind;
    events = λ ref e cursor now old c kind i h. cc (dynamo.no_item old c, h);
    terminals =
        λ ref e old c kind. clash 116 101 refl (terminal_code o (event_base e).stream_id) kind;
  }

  -- Any number of clients call the methods of the connector on one table that evaluates conditions as
  -- DynamoDB documents; their calls interleave in any order, fail, or lose their answer. Then the item
  -- of a durable event never changes once it is there, and neither does the cursor that it holds. That
  -- the table drops items that have expired is left out.
  pub durable_events_stay :
      {t t' : Table} {running : List (Prog (Unit {0}))}
      → Reaches o enc dynamo t t' running
      → (stream_id event_id : String) (i : Item) → t (event_key o stream_id event_id) ≡ some i
      → t' (event_key o stream_id event_id) ≡ some i
  durable_events_stay reached stream_id event_id i h =
      (Reaches-Later dynamo Stays (λ k j kind i e. e)
          (λ k a b c f g kind i e. g kind i (f kind i e))
          (method-Guarded o enc dynamo Stays writes-Stays) reached).1
        (event_key o stream_id event_id) (event_code o stream_id event_id) i h

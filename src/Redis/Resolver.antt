-- ===== src/Redis/Resolver.antt =====
-- connectors/redis-dynamodb/resolver.go: DynamoDBResolver. The query is a parameter: its items, an
-- error of the call, or an item that cannot be read.
use go_temporal_ai_sdk.Prelude.{
  String, Bool, false, not, Option, none, some, List, [], ◌∷◌, ◌++◌, ◌==◌, join, if◌then◌else◌,
}
use go_temporal_ai_sdk.Updates.Errors.{stream_not_found, external, resolver_client_required}
use go_temporal_ai_sdk.Redis.Item.{Item, str, string_field}
use go_temporal_ai_sdk.Redis.Prog.{Result, ok, err, StreamRef}
use go_temporal_ai_sdk.Redis.Options.{or_default}

-- The formatters are `none` where the field is nil.
pub record ResolverOptions : Type 0 where
  pub has_dynamo : Bool
  pub partition_key : String
  pub owner_field : String
  pub owner_fallback : String
  pub parent_field : String
  pub parent_fallback : String
  pub channel_field : String
  pub redis_stream_field : String
  pub channel_formatter : Option (String → String → String)
  pub redis_stream_format : Option (String → String → String)
  pub channel_base : String
  pub stream_base : String

-- What Query answers with the given name of the partition key, for a stream's identifier.
pub data Found : Type 0 where
  query_failed : Bool → String → Found
  items : List Item → Found
  unreadable : String → Found

abbrev pub first_string : List String → String
first_string [] = ""
first_string (s ∷ rest) = if s == "" then first_string rest else s

-- The field, then the fallback that is configured, or else the usual one.
unfoldable pub field_or : Item → String → String → String → String
field_or item name fallback usual =
    let value = string_field (some item) name in
    if not (value == "")
    then value
    else if not (fallback == "")
    then string_field (some item) fallback
    else string_field (some item) usual

-- The field, then what the formatter gives, then the prefix and the stream's identifier.
abbrev formatted : Option (String → String → String) → String → String → String
formatted none owner id = ""
formatted (some format) owner id = format owner id

unfoldable pub name_for :
    Item → String → Option (String → String → String) → String → String → String → String
name_for item name formatter prefix owner id =
    first_string
      (string_field (some item) name ∷ formatted formatter owner id ∷ join (prefix ∷ id ∷ []) ∷ [])

abbrev unless_empty : String → String → Item
unless_empty name value = if value == "" then [] else (name, str value) ∷ []

module _ (o : ResolverOptions) where
  unfoldable pub ref_of : String → Item → StreamRef
  unfolding field_or name_for
  ref_of id item =
      let owner =
        field_or item (first_string (o.owner_field ∷ "ownerUserId" ∷ [])) o.owner_fallback
          "scopeId" in
      let parent =
        field_or item (first_string (o.parent_field ∷ "parentConversationId" ∷ []))
          o.parent_fallback "conversationId" in
      record {
        channel =
            name_for item o.channel_field o.channel_formatter
              (first_string (o.channel_base ∷ "temporal-ai:live:" ∷ [])) owner id;
        redis_stream =
            name_for item o.redis_stream_field o.redis_stream_format
              (first_string (o.stream_base ∷ "temporal-ai:stream:" ∷ [])) owner id;
        replay_attributes =
            ("streamId", str id) ∷ unless_empty "ownerUserId" owner
            ++ unless_empty "parentConversationId" parent;
      }

  abbrev pub stream_found : String → Found → Result StreamRef
  unfolding ref_of
  stream_found id (query_failed wraps message) = err (external wraps message)
  stream_found id (unreadable message) = err (external false message)
  stream_found id (items []) = err (stream_not_found id)
  stream_found id (items (item ∷ rest)) = ok (ref_of id item)

  unfoldable pub resolve_stream : (String → String → Found) → String → Result StreamRef
  resolve_stream query id =
      if o.has_dynamo
      then stream_found id (query (or_default o.partition_key "id") id)
      else err resolver_client_required

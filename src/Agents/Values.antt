-- ===== src/Agents/Values.antt =====
-- JSON values as the workflows of temporalai build and read them, and the functions of Go's library and
-- of go-ai that they call.
use go_temporal_ai_sdk.Prelude.{
  String, Option, none, some, List, [], ◌∷◌, ◌++◌, ◌==◌, ◌⊎◌, if◌then◌else◌,
}
use go_temporal_ai_sdk.Updates.Types.{Value, Values, Fields, null, str, arr, obj}
use go_temporal_ai_sdk.Agents.Types.{Metadata, ToolResultOutput, ToolChoice}

-- json.Unmarshal gives a value or the text of its error, and json.Marshal may fail. `quote` is `%q`, and
-- `output_json` the JSON of a ToolResultOutput.
pub record Library : Type 0 where
  pub unmarshal : String → Value ⊎ String
  pub marshal : Value → Option String
  pub trim_space : String → String
  pub quote : String → String
  pub zero_usage : Value
  pub add_usage : Value → Value → Value
  pub auto_tool_choice : ToolChoice
  pub output_json : ToolResultOutput → Value

-- A value of type `any`, where nil is JSON's null.
abbrev pub any_value : Option Value → Value
any_value none = null
any_value (some v) = v

abbrev pub fields_of : Metadata → Fields
fields_of [] = Fields.end
fields_of ((k, v) ∷ rest) = Fields.field k v (fields_of rest)

abbrev pub object : Metadata → Value
object m = obj (fields_of m)

abbrev pub values_of : List Value → Values
values_of [] = Values.nil
values_of (v ∷ rest) = Values.cons v (values_of rest)

abbrev pub array : List Value → Value
array vs = arr (values_of vs)

-- `if len(m) > 0 { data[key] = m }`
abbrev pub unless_empty : String → Metadata → Metadata
unless_empty key [] = []
unless_empty key (entry ∷ rest) = (key, object (entry ∷ rest)) ∷ []

abbrev pub field_text : String → Fields → String
field_text key Fields.end = ""
field_text key (Fields.field k (str s) rest) = if k == key then s else field_text key rest
field_text key (Fields.field k v rest) = if k == key then "" else field_text key rest

-- The entry, if it is a text that is not empty.
abbrev pub copy_string_metadata : Fields → String → Metadata
copy_string_metadata raw key =
    let s = field_text key raw in if s == "" then [] else (key, str s) ∷ []

-- toolLifecycleMetadataFromContext, with a nil map as an empty one: of a context that is no object once
-- it is JSON, nothing is kept.
unfoldable pub tool_lifecycle_metadata : Option Value → Metadata
tool_lifecycle_metadata (some (obj raw)) =
    copy_string_metadata raw "taskId"
    ++ copy_string_metadata raw "taskTitle"
    ++ copy_string_metadata raw "skillName"
tool_lifecycle_metadata context = []

-- ===== src/Redis/Kinds.antt =====
-- The keys of the items in connectors/redis-dynamodb/connector.go: which kind of item a key is for.
use Prim.Native.Char.{Char, code}
use Prim.Native.String
use Prim.Native.String.append
use go_temporal_ai_sdk.Prelude.{ℕ, String, ◌≡◌, refl, eqb, false, [], ◌∷◌, join, arith}
use go_temporal_ai_sdk.Redis.Options.{Options}
use go_temporal_ai_sdk.Redis.Prog.{Encoding}
use go_temporal_ai_sdk.Redis.Preview.{preview_key}
use go_temporal_ai_sdk.Redis.Records.{record_key}
use go_temporal_ai_sdk.Redis.Events.{event_key, terminal_key}

-- The first character tells the kinds of keys apart: preview#, record#, event#, terminal#.
unfoldable pub first_code : String → ℕ
first_code String.[] = 0
first_code (String.◌∷◌ c s) = code c

first_code-append : (c : Char) (s t : String) → first_code (String.◌++◌ (String.◌∷◌ c s) t) ≡ code c
unfolding first_code
first_code-append c s t = rw append.cons refl

pub preview_code :
    (o : Options) (stream_id id : String) → first_code (preview_key o stream_id id).id ≡ 112
unfolding first_code
preview_code o stream_id id = first_code-append "p" "review#" (join (stream_id ∷ "#" ∷ id ∷ []))

pub record_code :
    (o : Options) (enc : Encoding) (stream_id id : String)
    → first_code (record_key o enc stream_id id).id ≡ 114
unfolding first_code
record_code o enc stream_id id = first_code-append "r" "ecord#" (join (stream_id ∷ "#" ∷ id ∷ []))

pub event_code :
    (o : Options) (stream_id id : String) → first_code (event_key o stream_id id).id ≡ 101
unfolding first_code
event_code o stream_id id = first_code-append "e" "vent#" (join (stream_id ∷ "#" ∷ id ∷ []))

pub terminal_code :
    (o : Options) (stream_id : String) → first_code (terminal_key o stream_id).id ≡ 116
unfolding first_code
terminal_code o stream_id = first_code-append "t" "erminal#" stream_id

-- Two kinds of key have no key in common.
pub clash : {A : Type 0} {n : ℕ} (a b : ℕ) → eqb a b ≡ false → n ≡ a → n ≡ b → A
clash a b d p q = absurd (ground (arith, d, p, q))

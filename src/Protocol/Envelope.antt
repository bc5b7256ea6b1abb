-- ===== src/Protocol/Envelope.antt =====
-- `class Envelope` of protocol.py, its caps and the payload registry. What Python's standard library
-- does with JSON, UTF-8 and conversions is a parameter.
use Prim.Native.Char.{code}
use shogunet.Prelude.{
  ℕ, ◌+◌, ◌/◌, ◌%◌, String, Option, some, List, [], ◌∷◌, ltb, if◌then◌else◌, ◌==◌, string_eq,
  nat_eq, map,
}
use shogunet.Prelude.Dict.{Dict, lookup}
use shogunet.Security.{Unicode, sanitize_text}
use shogunet.Payload.{Value, bound_payload}
use shogunet.Protocol.Errors.{Result, ok, ◌>>=◌}

-- json.dumps and json.loads on bytes, bytes.decode("utf-8", "replace"), str() and float() of a value. `none`
-- is the error that the source catches there: TypeError and ValueError, for JSON a JSONDecodeError. A number
-- beyond the range of a double or the limit on the digits of an integer is outside the model.
pub record Stdlib : Type 0 where
  pub unicode : Unicode
  pub dumps : Value → List ℕ
  pub dumps_sorted : Value → Option (List ℕ)
  pub loads : List ℕ → Option Value
  pub utf8_replace : List ℕ → String
  pub to_str : Value → String
  pub to_float : Value → Option ℕ

abbrev pub max_agent_id : ℕ
max_agent_id = 48

abbrev pub max_realm : ℕ
max_realm = 8

-- FIELD_NAMES and FIELD_IDS
abbrev pub field_names : Dict String ℕ
field_names =
    ("_blob", 0)
    ∷ ("fact_id", 1)
    ∷ ("content", 2)
    ∷ ("kind", 3)
    ∷ ("salience", 4)
    ∷ ("origin", 5)
    ∷ ("vector", 6)
    ∷ ("target", 7)
    ∷ ("amount", 8)
    ∷ ("digests", 9)
    ∷ ("query", 10)
    ∷ ("top_k", 11)
    ∷ ("results", 12)
    ∷ ("task", 13)
    ∷ ("status", 14)
    ∷ ("error", 15)
    ∷ ("manifest", 16)
    ∷ ("count", 17)
    ∷ ("since", 18)
    ∷ ("grants", 19)
    ∷ ("reason", 20)
    ∷ ("ttl", 21)
    ∷ ("qos", 22)
    ∷ ("realm", 23)
    ∷ ("port", 24)
    ∷ ("entity_id", 25)
    ∷ ("frame_id", 26)
    ∷ ("confidence", 27)
    ∷ ("orientation", 28)
    ∷ ("size", 29)
    ∷ ("observations", 30)
    ∷ ("descriptor", 31)
    ∷ ("result", 32)
    ∷ ("request_id", 33)
    ∷ ("event", 34)
    ∷ ("entities", 35)
    ∷ ("motion_events", 36)
    ∷ []

abbrev flip : String × ℕ → ℕ × String
flip (name, n) = (n, name)

abbrev pub field_ids : Dict ℕ String
field_ids = map flip field_names

unfoldable pub field_id : String → Option ℕ
field_id name = lookup name field_names

unfoldable pub field_name : ℕ → Option String
field_name n = lookup n field_ids

abbrev pub tag_str : ℕ
tag_str = 0

abbrev pub tag_uint : ℕ
tag_uint = 1

abbrev pub tag_float : ℕ
tag_float = 2

abbrev pub tag_json : ℕ
tag_json = 3

pub record Envelope : Type 0 where
  pub msg_id : ℕ
  pub msg_type : String
  pub sender : String
  pub recipient : String
  pub topic : String
  pub realm : String
  pub payload : Value
  pub created_at : ℕ

-- x or "*"
abbrev pub or_all : String → String
or_all s = if s == "" then "*" else s

-- str.encode("utf-8")
abbrev utf8_char : ℕ → List ℕ → List ℕ
utf8_char c rest =
    if ltb c 128
    then c ∷ rest
    else if ltb c 2048
    then (192 + c / 64) ∷ (128 + c % 64) ∷ rest
    else if ltb c 65536
    then (224 + c / 4096) ∷ (128 + c / 64 % 64) ∷ (128 + c % 64) ∷ rest
    else (240 + c / 262144) ∷ (128 + c / 4096 % 64) ∷ (128 + c / 64 % 64) ∷ (128 + c % 64) ∷ rest

unfoldable pub utf8 : String → List ℕ
utf8 String.[] = []
utf8 (String.◌∷◌ c s) = utf8_char (code c) (utf8 s)

module _ (py : Stdlib) where
  -- sanitize_text(s, cap), for a text
  abbrev pub clean : String → ℕ → String
  clean s cap = sanitize_text py.unicode (some s) cap

  unfoldable pub normalized : Envelope → Result Envelope
  normalized env = do
    payload ← bound_payload py.unicode 0 env.payload
    ok (record {
      msg_id = env.msg_id % 4294967296;
      msg_type = env.msg_type;
      sender = clean env.sender max_agent_id;
      recipient = or_all (clean env.recipient max_agent_id);
      topic = clean env.topic 64;
      realm = or_all (clean env.realm max_realm);
      payload = payload;
      created_at = env.created_at;
    })

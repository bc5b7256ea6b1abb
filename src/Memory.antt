-- ===== src/Memory.antt =====
-- The memory mesh of memory_sync.py: `InMemoryFactStore`, and what `MemorySyncNode` does with an
-- envelope that comes in. A key `origin:id` is the pair of its parts. Times and saliences are bit
-- patterns of doubles; up to that of infinity, they are not negative and in the order of the doubles.
pub mod Reading
pub mod Node
pub mod Publishing
use shogunet.Prelude.{
  ℕ, ◌+◌, ◌-◌, ◌%◌, ◌^◌, String, Option, none, some, List, [], ◌∷◌, Bool, true, false, ltb, leb,
  max, min, ◌==◌, if◌then◌else◌, string_eq, nat_eq, pair_eq, is_some,
}
use shogunet.Prelude.Dict.{Dict, lookup, insert, erase, contains}
use shogunet.Security.{sanitize_text}
use shogunet.Payload.{Value, nat, Fields, end}
use shogunet.Protocol.Envelope.{Stdlib, clean}

abbrev pub Key : Type 0
Key = String × ℕ

pub record Fact : Type 0 where
  pub key : Key
  pub fact_id : Value
  pub origin : String
  pub content : String
  pub kind : String
  pub salience : ℕ
  pub vector : List ℕ
  pub metadata : Fields
  pub access_count : ℕ
  pub created_at : ℕ
  pub last_accessed : ℕ
  pub updated_at : ℕ

-- What the store asks of its platform: the embedding of a text, and the sum of two doubles.
pub record Numerics : Type 0 where
  pub embed : String → ℕ → List ℕ
  pub plus : ℕ → ℕ → ℕ

pub record Store : Type 0 where
  pub agent_id : String
  pub dimension : ℕ
  pub facts : Dict Key Fact
  pub next_local_id : ℕ

-- int(x) & 0xFFFFFFFF, for an int
unfoldable pub uint32_of : Value → ℕ
uint32_of (nat n) = n % 2 ^ 32
uint32_of (Value.neg n) = 2 ^ 32 - 1 - n % 2 ^ 32
uint32_of (Value.bool b) = if b then 1 else 0
uint32_of _ = 0

-- max(0.0, x): what is negative or no number is 0.0
abbrev pub not_negative : ℕ → ℕ
not_negative x = if leb x 9218868437227405312 then x else 0

-- The time, where it is one that has passed by `now`.
abbrev pub past_or_now : ℕ → Option ℕ → ℕ
past_or_now now none = now
past_or_now now (some t) = if leb t now then t else now

-- x or "fact"
abbrev pub or_fact : String → String
or_fact s = if s == "" then "fact" else s

-- list(vector) if vector else _embed(content, self.dimension)
abbrev pub vector_or : List ℕ → List ℕ → List ℕ
vector_or [] embedded = embedded
vector_or (x ∷ xs) embedded = x ∷ xs

module _ (py : Stdlib) (num : Numerics) where
  -- `_foreign_key`
  abbrev pub foreign_key : String → Value → Key
  foreign_key origin fact_id = (clean py origin 48, uint32_of fact_id)

  -- `store_fact` of another agent's fact, at `now`.
  unfoldable pub store_foreign :
      ℕ → String → String → List ℕ → ℕ → Value → String → Fields → Option ℕ → Store → Store
  unfolding sanitize_text uint32_of
  store_foreign now content kind vector salience fact_id origin metadata created_at s =
      let text = clean py content 4096 in
      let key = foreign_key origin fact_id in
      let fact : Fact = record {
        key = key;
        fact_id = fact_id;
        origin = origin;
        content = text;
        kind = or_fact (clean py kind 32);
        salience = not_negative salience;
        vector = vector_or vector (num.embed text s.dimension);
        metadata = metadata;
        access_count = 0;
        created_at = past_or_now now created_at;
        last_accessed = now;
        updated_at = now;
      } in
      record s { facts = insert key fact s.facts }

  -- `store_fact` of an own fact, which gets the next id.
  unfoldable pub store_local : ℕ → String → String → List ℕ → ℕ → Fields → Store → Store
  unfolding sanitize_text
  store_local now content kind vector salience metadata s =
      let text = clean py content 4096 in
      let key : Key = (s.agent_id, s.next_local_id) in
      let fact : Fact = record {
        key = key;
        fact_id = nat s.next_local_id;
        origin = s.agent_id;
        content = text;
        kind = or_fact (clean py kind 32);
        salience = not_negative salience;
        vector = vector_or vector (num.embed text s.dimension);
        metadata = metadata;
        access_count = 0;
        created_at = now;
        last_accessed = now;
        updated_at = now;
      } in
      record s { facts = insert key fact s.facts; next_local_id = s.next_local_id + 1 }

  -- `reinforce`, with the default cap of 10.0
  unfoldable pub reinforce : ℕ → Key → ℕ → Store → Store × Bool
  reinforce now key boost s = elim (lookup key s.facts) [
    | none ↦ (s, false)
    | some f ↦
        let raised : Fact = record f {
          salience = min 4621819117588971520 (num.plus f.salience (not_negative boost));
          access_count = f.access_count + 1;
          updated_at = now;
        } in
        (record s { facts = insert key raised s.facts }, true)
  ]

-- `get_fact`: reading a fact touches it
unfoldable pub get_fact : ℕ → Key → Store → Store × Option Fact
get_fact now key s = elim (lookup key s.facts) [
  | none ↦ (s, none)
  | some f ↦
      let touched : Fact = record f { last_accessed = now } in
      (record s { facts = insert key touched s.facts }, some touched)
]

unfoldable pub remove : Key → Store → Store × Bool
remove key s = (record s { facts = erase key s.facts }, contains key s.facts)

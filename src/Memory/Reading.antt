-- ===== src/Memory/Reading.antt =====
-- What `_on_fact`, `_on_reinforce` and `_on_tombstone` of memory_sync.py read off a payload.
use shogunet.Prelude.{
  ℕ, String, Option, none, some, List, [], Bool, true, false, leb, ◌==◌, if◌then◌else◌, string_eq,
  nat_eq,
}
use shogunet.Security.{sanitize_text}
use shogunet.Payload.{
  Value, null, bool, nat, neg, float, str, list, dict, other, nil, cons, Fields, end, field,
  get_field, count_fields,
}
use shogunet.Protocol.Envelope.{Stdlib, Envelope, clean}

-- The incoming fact. An empty vector is `None`, and `created` is `none` where it is 0.0.
pub record Incoming : Type 0 where
  pub origin : String
  pub fact_id : Value
  pub content : String
  pub kind : String
  pub vector : List ℕ
  pub salience : ℕ
  pub metadata : Fields
  pub created : Option ℕ

-- bool(x)
unfoldable pub truthy : Value → Bool
truthy null = false
truthy (bool b) = b
truthy (nat n) = if n == 0 then false else true
truthy (neg n) = true
truthy (float bits) =
    if bits == 0 then false else if bits == 9223372036854775808 then false else true
truthy (str s) = if s == "" then false else true
truthy (list nil) = false
truthy (list (cons v vs)) = true
truthy (dict end) = false
truthy (dict (field k v fs)) = true
truthy (other s) = true

-- isinstance(x, int): a bool is one
abbrev pub is_int : Value → Bool
is_int (bool b) = true
is_int (nat n) = true
is_int (neg n) = true
is_int _ = false

-- payload.get(key), where a missing key is None
abbrev pub get : String → Fields → Value
get key fs = elim (get_field key fs) [ none ↦ null | some v ↦ v ]

abbrev pub is_null : Value → Bool
is_null null = true
is_null _ = false

-- a dict of at most 16 items, or {}
abbrev pub metadata_of : Value → Fields
metadata_of (dict fs) = if leb (count_fields fs) 16 then fs else end
metadata_of _ = end

-- The value under a key, or the default.
abbrev pub get_or_default : String → Value → Fields → Value
get_or_default key default fs = elim (get_field key fs) [ none ↦ default | some v ↦ v ]

-- The legacy list of floats: MAX_PAYLOAD_ITEMS is not defined there, so a list that is not empty
-- ends in a NameError.
abbrev pub has_legacy : Value → Bool
has_legacy (list (cons v vs)) = true
has_legacy _ = false

module _ (py : Stdlib) where
  -- sanitize_text(x, cap), for any object
  abbrev pub text_of : Value → ℕ → String
  text_of null cap = sanitize_text py.unicode none cap
  text_of (str s) cap = clean py s cap
  text_of (bool b) cap = clean py (py.to_str (bool b)) cap
  text_of (nat n) cap = clean py (py.to_str (nat n)) cap
  text_of (neg n) cap = clean py (py.to_str (neg n)) cap
  text_of (float n) cap = clean py (py.to_str (float n)) cap
  text_of (list vs) cap = clean py (py.to_str (list vs)) cap
  text_of (dict fs) cap = clean py (py.to_str (dict fs)) cap
  text_of (other s) cap = clean py s cap

  -- sanitize_text(payload.get("origin") or env.sender, 48)
  unfoldable pub origin_of : Fields → Envelope → String
  unfolding truthy sanitize_text get_field
  origin_of fs env =
      if truthy (get "origin" fs) then text_of (get "origin" fs) 48 else clean py env.sender 48

  -- float(payload.get("created_at", 0.0) or 0.0), or 0.0 where that raises; 0.0 is `none`
  unfoldable pub created_of : Fields → Option ℕ
  unfolding truthy get_field
  created_of fs =
      if truthy (get "created_at" fs)
      then elim (py.to_float (get "created_at" fs)) [
        | none ↦ none
        | some t ↦ if truthy (float t) then some t else none
      ]
      else none

  -- `unpack_vector` is a parameter: `none` is None.
  module _ (unpack : Value → Option (List ℕ)) where
    -- The default salience is 1.0. `none` is an exception: the NameError, or a salience that is no float.
    unfoldable pub read_fact : Fields → Envelope → Option Incoming
    unfolding origin_of created_of count_fields get_field
    read_fact fs env =
        let vector : Option (List ℕ) = elim (unpack (get "vector_b64" fs)) [
          | some v ↦ some v
          | none ↦ if has_legacy (get "vector" fs) then none else some []
        ] in
        elim vector [
          | none ↦ none
          | some v ↦ elim (py.to_float (get_or_default "salience" (float 4607182418800017408) fs)) [
            | none ↦ none
            | some salience ↦ some (record {
              origin = origin_of fs env;
              fact_id = get "fact_id" fs;
              content = text_of (get "content" fs) 4096;
              kind = text_of (get_or_default "kind" (str "fact") fs) 32;
              vector = v;
              salience = salience;
              metadata = metadata_of (get "metadata" fs);
              created = created_of fs;
            })
          ]
        ]

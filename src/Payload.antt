-- ===== src/Payload.antt =====
-- The values of a payload, and `_bound_payload` of protocol.py with `redact` of security.py.
pub mod Bounds
use shogunet.Prelude.{
  ℕ, zero, suc, ◌+◌, ◌/◌, ◌%◌, ◌^◌, ◌≡◌, String, Bool, true, false, Option, none, some, ltb, ◌==◌,
  nat_eq, string_eq, if◌then◌else◌, List, [], ◌∷◌,
}
use shogunet.Prelude.Dict.{elem}
use shogunet.Security.{Unicode, sanitize_text}
use shogunet.Protocol.Errors.{
  Result, ok, err, ◌>>=◌, payload_too_deep, too_many_keys, list_too_long,
}

abbrev pub max_topic : ℕ
max_topic = 64

abbrev pub max_str_value : ℕ
max_str_value = 2048

abbrev pub max_payload_depth : ℕ
max_payload_depth = 4

abbrev pub max_payload_items : ℕ
max_payload_items = 64

-- A Python value. A float is the bit pattern of its IEEE double; `neg n` is the integer -(n + 1);
-- `other` is any other object, by its `str`. Keys are by their `str`.
mutual
  pub data Value : Type 0 where
    null : Value
    bool : Bool → Value
    nat : ℕ → Value
    neg : ℕ → Value
    float : ℕ → Value
    str : String → Value
    list : Values → Value
    dict : Fields → Value
    other : String → Value

  pub data Values : Type 0 where
    nil : Values
    cons : Value → Values → Values

  pub data Fields : Type 0 where
    end : Fields
    field : String → Value → Fields → Fields

unfoldable pub count_values : Values → ℕ
count_values nil = 0
count_values (cons v vs) = suc (count_values vs)

unfoldable pub count_fields : Fields → ℕ
count_fields end = 0
count_fields (field k v fs) = suc (count_fields fs)

-- d.get(k)
unfoldable pub get_field : String → Fields → Option Value
get_field k end = none
get_field k (field j v fs) = if j == k then some v else get_field k fs

-- d[k] = v
unfoldable pub set_field : String → Value → Fields → Fields
set_field k v end = field k v end
set_field k v (field j w fs) = if j == k then field j v fs else field j w (set_field k v fs)

-- math.isfinite: the exponent bits are not all ones
unfoldable pub is_finite : ℕ → Bool
is_finite bits = if bits / 2 ^ 52 % 2048 == 2047 then false else true

abbrev pub secret_keys : List String
secret_keys =
    "key" ∷ "token" ∷ "secret" ∷ "password" ∷ "passwd" ∷ "authorization" ∷ "api_key" ∷ "apikey"
    ∷ "credential" ∷ []

module _ (u : Unicode) where
  unfoldable mutual
    unfolding sanitize_text count_values count_fields is_finite set_field

    pub bound_payload : ℕ → Value → Result Value
    bound_payload depth (dict fs) =
        if ltb max_payload_depth depth
        then err payload_too_deep
        else if ltb max_payload_items (count_fields fs)
        then err too_many_keys
        else do out ← bound_fields (depth + 1) fs end; ok (dict out)
    bound_payload depth (list vs) =
        if ltb max_payload_depth depth
        then err payload_too_deep
        else if ltb max_payload_items (count_values vs)
        then err list_too_long
        else do out ← bound_values (depth + 1) vs; ok (list out)
    bound_payload depth (str s) =
        if ltb max_payload_depth depth
        then err payload_too_deep
        else ok (str (sanitize_text u (some s) max_str_value))
    bound_payload depth (float bits) =
        if ltb max_payload_depth depth
        then err payload_too_deep
        else ok (float (if is_finite bits then bits else 0))
    bound_payload depth (other s) =
        if ltb max_payload_depth depth
        then err payload_too_deep
        else ok (str (sanitize_text u (some s) max_str_value))
    bound_payload depth null = if ltb max_payload_depth depth then err payload_too_deep else ok null
    bound_payload depth (bool b) =
        if ltb max_payload_depth depth then err payload_too_deep else ok (bool b)
    bound_payload depth (nat n) =
        if ltb max_payload_depth depth then err payload_too_deep else ok (nat n)
    bound_payload depth (neg n) =
        if ltb max_payload_depth depth then err payload_too_deep else ok (neg n)

    pub bound_values : ℕ → Values → Result Values
    bound_values depth nil = ok nil
    bound_values depth (cons v vs) = do
      v' ← bound_payload depth v
      vs' ← bound_values depth vs
      ok (cons v' vs')

    -- The dict comprehension: `out` is what was built so far.
    pub bound_fields : ℕ → Fields → Fields → Result Fields
    bound_fields depth end out = ok out
    bound_fields depth (field k v fs) out = do
      v' ← bound_payload depth v
      bound_fields depth fs (set_field (sanitize_text u (some k) max_topic) v' out)

-- `str.lower` is Python's: a parameter.
module _ (lower : String → String) where
  unfoldable mutual
    pub redact : Value → Value
    redact null = null
    redact (bool b) = bool b
    redact (nat n) = nat n
    redact (neg n) = neg n
    redact (float bits) = float bits
    redact (str s) = str s
    redact (list vs) = list (redact_values vs)
    redact (dict fs) = dict (redact_fields fs)
    redact (other s) = other s

    pub redact_values : Values → Values
    redact_values nil = nil
    redact_values (cons v vs) = cons (redact v) (redact_values vs)

    pub redact_fields : Fields → Fields
    redact_fields end = end
    redact_fields (field k v fs) =
        field k (if elem (lower k) secret_keys then str "[REDACTED]" else redact v)
          (redact_fields fs)

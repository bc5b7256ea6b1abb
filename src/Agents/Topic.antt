-- ===== src/Agents/Topic.antt =====
-- `parse_shugonet_topic` of agent_registry.py, with the `strip` and `split` of one character.
use Prim.Native.Char.{Char, code}
use shogunet.Prelude.{
  String, Option, none, some, List, [], ◌∷◌, Bool, ◌==◌, if◌then◌else◌, nat_eq, string_eq,
}

-- c == "/"
abbrev pub is_slash : Char → Bool
is_slash c = code c == 47

unfoldable pub lstrip_slash : String → String
lstrip_slash String.[] = ""
lstrip_slash (String.◌∷◌ c s) = if is_slash c then lstrip_slash s else String.◌∷◌ c s

-- A trailing slash goes where nothing else is left behind it.
unfoldable pub cons_unslashed : Char → String → String
cons_unslashed c String.[] = if is_slash c then "" else String.◌∷◌ c ""
cons_unslashed c (String.◌∷◌ d r) = String.◌∷◌ c (String.◌∷◌ d r)

unfoldable pub rstrip_slash : String → String
unfolding cons_unslashed
rstrip_slash String.[] = ""
rstrip_slash (String.◌∷◌ c s) = cons_unslashed c (rstrip_slash s)

-- s.strip("/")
unfoldable pub strip_slash : String → String
unfolding lstrip_slash rstrip_slash
strip_slash s = rstrip_slash (lstrip_slash s)

-- One more character in front of the first part.
unfoldable pub extend_first : Char → List String → List String
extend_first c [] = String.◌∷◌ c "" ∷ []
extend_first c (part ∷ parts) = String.◌∷◌ c part ∷ parts

-- s.split("/")
unfoldable pub split_slash : String → List String
unfolding extend_first
split_slash String.[] = "" ∷ []
split_slash (String.◌∷◌ c s) =
    if is_slash c then "" ∷ split_slash s else extend_first c (split_slash s)

abbrev pub three_parts : List String → Option (String × String)
three_parts (root ∷ agent ∷ tail ∷ []) =
    if root == "shugunet"
    then if agent == "" then none else if tail == "" then none else some (agent, tail)
    else none
three_parts _ = none

unfoldable pub parse_shugonet_topic : String → Option (String × String)
unfolding strip_slash split_slash
parse_shugonet_topic topic = three_parts (split_slash (strip_slash topic))

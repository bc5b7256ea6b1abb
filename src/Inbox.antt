-- ===== src/Inbox.antt =====
-- `class InboxDedup` of store_forward.py.
pub mod Window
use shogunet.Prelude.{
  ℕ, ◌%◌, String, List, [], ◌∷◌, ◌++◌, Bool, true, false, leb, max, ◌==◌, if◌then◌else◌, nat_eq,
  string_eq, pair_eq, length,
}
use shogunet.Prelude.Dict.{Dict, contains, insert, erase}

abbrev pub Key : Type 0
Key = String × ℕ

pub record Inbox : Type 0 where
  pub capacity : ℕ
  pub seen : Dict Key (Unit {0})
  pub order : List Key

unfoldable pub new_inbox : ℕ → Inbox
new_inbox capacity = record { capacity = max 1 capacity; seen = []; order = [] }

-- if len(self._order) >= self.capacity: popleft, and pop from `seen`
unfoldable pub make_room : Inbox → List Key → Inbox
make_room b [] = b
make_room b (oldest ∷ rest) =
    if leb b.capacity (length (oldest ∷ rest))
    then record b { seen = erase oldest b.seen; order = rest }
    else b

abbrev pub remember : Key → Inbox → Inbox
remember key b = record b { seen = insert key tt b.seen; order = b.order ++ key ∷ [] }

-- (str(sender), int(msg_id) & 0xFFFFFFFF)
abbrev pub key_of : String → ℕ → Key
key_of sender msg_id = (sender, msg_id % 4294967296)

unfoldable pub is_duplicate : String → ℕ → Inbox → Inbox × Bool
unfolding make_room
is_duplicate sender msg_id b =
    let key = key_of sender msg_id in
    if contains key b.seen then (b, true) else (remember key (make_room b b.order), false)

-- ===== src/Tests/Sharing.antt =====
-- A node that answers a digest, and a query that two responses come in for.
use shogunet.Prelude.{
  ◌≡◌, refl, none, some, List, [], ◌∷◌, true, leb, max, length, All, ◌≤◌, string_eq, nat_eq,
  pair_eq,
}
use shogunet.Prelude.Dict.{Unique}
use shogunet.Security.{sanitize_text, take_text, clean_text, clean_char}
use shogunet.Payload.{nat, str, list, dict, nil, cons, Fields, end, field}
use shogunet.Protocol.Envelope.{Envelope}
use shogunet.Memory.{Fact, uint32_of}
use shogunet.Memory.Node.{Node, full}
use shogunet.Memory.Publishing as Publishing
use shogunet.Memory.Publishing.{on_digest}
use shogunet.Memory.Publishing.Sharing.{Permitted, on_digest-Permitted}
use shogunet.MeshQuery.{Mesh}
use shogunet.MeshQuery.Querying.{Outside, asks, query_envelope, open_query, await, close_query}
use shogunet.MeshQuery.Collecting.{keys_of}
use shogunet.MeshQuery.Results.{close_query-distinct}
use shogunet.Tests.Values.{python, announcement}
use shogunet.Tests.Mesh.{numerics, packed}

abbrev sending : Publishing.Outside
sending = record {
  lower = λ s. s;
  pack_vector = λ v. "AAAA";
  fact_digest = λ k. k.0;
  round3 = λ n. n;
  new_msg_id = λ k. k;
  time = λ k. k;
  carries = λ env. true;
}

abbrev own_fact : Fact
own_fact = record {
  key = ("b", 1);
  origin = "b";
  fact_id = nat 1;
  content = "x";
  kind = "fact";
  vector = [];
  salience = 1;
  metadata = end;
  access_count = 0;
  created_at = 5;
  last_accessed = 5;
  updated_at = 5;
}

abbrev owner : Node
owner = record {
  store = record {
    agent_id = "b";
    dimension = 8;
    facts = (("b", 1), own_fact) ∷ [];
    next_local_id = 2;
  };
  profiles = [];
  default_profile = full;
  tombstones = [];
  stats = [];
}

test_digest :
    length (on_digest python numerics packed sending (λ i. 9) announcement end owner).1 ≡ 1
unfolding on_digest sanitize_text take_text clean_text clean_char uint32_of
test_digest = refl

on_digest-Permitted_example :
    let envs = (on_digest python numerics packed sending (λ i. 9) announcement end owner).1 in
    All (Permitted python numerics packed sending owner) envs × (length envs ≤ 32)
on_digest-Permitted_example =
    on_digest-Permitted python numerics packed sending (λ i. 9) announcement end owner

abbrev answering : Outside
answering = record {
  search = λ text top_k. none;
  round3 = λ n. n;
  new_msg_id = 2;
  time = 6;
  carries = λ env. true;
}

abbrev mesh : Mesh
mesh = record {
  agent_id = "b";
  profiles = [];
  default_profile = full;
  pending = [];
  queries_sent = 0;
  replies_received = 0;
  queries_answered = 0;
}

abbrev item : Fields
item = field "origin" (str "a") (field "fact_id" (nat 4) (field "salience" (nat 1) end))

abbrev response : Envelope
response = record announcement {
  msg_type = "memory_response";
  recipient = "b";
  payload = dict (
      field "correlation" (nat 7)
        (field "results" (list (cons (dict item) (cons (dict item) nil))) end));
}

-- What `open_query` makes of `mesh`.
abbrev waiting : Mesh
waiting = record mesh {
  pending = (7, record { results = []; keys = []; replies = 0; expected = 1 }) ∷ [];
}

abbrev sent : List Envelope
sent = query_envelope python 6 7 3 "x" mesh "a" ∷ []

test_open : open_query python 6 7 3 "x" ("a" ∷ []) mesh ≡ some (waiting, sent)
unfolding open_query asks sanitize_text take_text clean_text clean_char
test_open = refl

test_answer :
    length
      (close_query python leb 7 3 (await python answering (response ∷ response ∷ []) waiting)).1
    ≡ 1
unfolding close_query await sanitize_text take_text clean_text clean_char
test_answer = refl

close_query-distinct_example :
    let found =
      (close_query python leb 7 3 (await python answering (response ∷ response ∷ []) waiting)).1 in
    Unique (keys_of python found) × (length found ≤ max 1 3)
close_query-distinct_example =
    close_query-distinct python leb answering 6 7 3 "x" ("a" ∷ []) (response ∷ response ∷ []) mesh
      waiting sent tt test_open

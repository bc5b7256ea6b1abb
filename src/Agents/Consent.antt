-- ===== src/Agents/Consent.antt =====
-- Pairing as the operator's consent: `is_paired` of agent_registry.py against the last grant of an agent.
use shogunet.Prelude.{
  ℕ, ◌+◌, ◌≤◌, ◌≡◌, refl, ◌∙◌, ap, max, String, Option, none, some, List, [], ◌∷◌, Bool, true,
  false, not, ltb, ◌==◌, if◌then◌else◌, string_eq, arith, All, Bool-cases, Option-cases, inl, inr,
}
use shogunet.Prelude.Dict.{Dict, lookup, insert, erase, values, lookup-insert, lookup-erase}
use shogunet.Security.{Unicode, sanitize_text, strip}
use shogunet.Payload.{Fields}
use shogunet.Agents.{
  Grant, Registry, new_registry, forget, pair, unpair, is_paired, heartbeat, alive, roster,
  list_agents, can_publish, can_accept,
}

-- A call of the registry, with its clock readings.
pub data Call : Type 0 where
  call_pair : ℕ → ℕ → String → Option (String × Fields) → String → Call
  call_unpair : ℕ → String → Call
  call_is_paired : ℕ → String → Call
  call_heartbeat : ℕ → ℕ → String → Call
  call_alive : ℕ → ℕ → String → Call
  call_list_agents : ℕ → Call
  call_can_publish : ℕ → String → String → Call
  call_can_accept : ℕ → String → String → Call

-- The reading of time.time() in a call.
abbrev pub clock : Call → ℕ
clock (call_pair wall mono agent manifest by) = wall
clock (call_unpair wall agent) = wall
clock (call_is_paired wall agent) = wall
clock (call_heartbeat wall mono agent) = wall
clock (call_alive wall mono agent) = wall
clock (call_list_agents wall) = wall
clock (call_can_publish wall agent topic) = wall
clock (call_can_accept wall sender topic) = wall

-- What a call leaves of the registry.
abbrev pub call : Unicode → Call → Registry → Registry
call u (call_pair wall mono agent manifest by) r = (pair u wall mono agent manifest by r).0
call u (call_unpair wall agent) r = (unpair agent r).0
call u (call_is_paired wall agent) r = (is_paired wall agent r).0
call u (call_heartbeat wall mono agent) r = (heartbeat wall mono agent r).0
call u (call_alive wall mono agent) r = (alive wall mono agent r).0
call u (call_list_agents wall) r = (list_agents wall r).0
call u (call_can_publish wall agent topic) r = (can_publish wall agent topic r).0
call u (call_can_accept wall sender topic) r = (can_accept wall sender topic r).0

abbrev pub run : Unicode → List Call → Registry → Registry
run u [] r = r
run u (c ∷ cs) r = run u cs (call u c r)

-- The abstract registry: the end of each agent's last grant, which only `unpair` takes back.
abbrev pub granted : Unicode → ℕ → Call → Dict String ℕ → Dict String ℕ
granted u ttl (call_pair wall mono agent manifest by) ends =
    let id = strip u (sanitize_text u (some agent) 48) in
    if id == "" then ends else insert id (wall + ttl) ends
granted u ttl (call_unpair wall agent) ends = erase agent ends
granted u ttl _ ends = ends

abbrev pub grants : Unicode → ℕ → List Call → Dict String ℕ → Dict String ℕ
grants u ttl [] ends = ends
grants u ttl (c ∷ cs) ends = grants u ttl cs (granted u ttl c ends)

-- The grant's end has not passed.
abbrev pub lasts : ℕ → Option ℕ → Bool
lasts now none = false
lasts now (some end) = not (ltb end now)

abbrev pub end_of : Option Grant → Option ℕ
end_of none = none
end_of (some g) = some g.expires_at

-- The agent holds a grant that has not ended.
abbrev pub lives : ℕ → String → Registry → Bool
lives now agent r = lasts now (end_of (lookup agent r.paired))

pub is_paired-lives :
    (now : ℕ) (agent : String) (r : Registry) → (is_paired now agent r).1 ≡ lives now agent r
unfolding is_paired
is_paired-lives now agent r = elim (Option-cases (lookup agent r.paired)) [
  | inl none_there ↦ rw (none_there, is_paired) refl
  | inr (g, there) ↦ rw (there, is_paired) (ground arith)
]

-- Looking at one agent changes no agent's standing, now or later.
module _ (now wall : ℕ) (past : wall ≤ now) (a : String) where
  forget_expired-lives :
      (agent : String) (g : Grant) (r : Registry)
      → lookup agent r.paired ≡ some g
      → ltb g.expires_at wall ≡ true
      → lives now a (forget agent r) ≡ lives now a r
  forget_expired-lives agent g r there over =
      ground (arith, lookup-erase agent a r.paired, string_eq.beq_iff agent a)

  pub is_paired-stands :
      (agent : String) (r : Registry) → lives now a (is_paired wall agent r).0 ≡ lives now a r
  unfolding is_paired
  is_paired-stands agent r = elim (Option-cases (lookup agent r.paired)) [
    | inl none_there ↦ rw (none_there, is_paired) refl
    | inr (g, there) ↦ elim (Bool-cases (ltb g.expires_at wall)) [
      | inl over ↦ rw (there, is_paired, over) (forget_expired-lives agent g r there over)
      | inr running ↦ rw (there, is_paired, running) refl
    ]
  ]

  roster-stands :
      (gs : List Grant) (r : Registry) → lives now a (roster wall gs r).0 ≡ lives now a r
  unfolding roster
  roster-stands [] r = refl
  roster-stands (g ∷ gs) r =
      ground
        (arith, is_paired-stands g.agent_id r, roster-stands gs (is_paired wall g.agent_id r).0)

  heartbeat-stands :
      (mono : ℕ) (agent : String) (r : Registry)
      → lives now a (heartbeat wall mono agent r).0 ≡ lives now a r
  unfolding heartbeat
  heartbeat-stands mono agent r = ground (arith, is_paired-stands agent r)

  alive-stands :
      (mono : ℕ) (agent : String) (r : Registry)
      → lives now a (alive wall mono agent r).0 ≡ lives now a r
  unfolding alive
  alive-stands mono agent r = ground (arith, is_paired-stands agent r)

  can_publish-stands :
      (agent topic : String) (r : Registry)
      → lives now a (can_publish wall agent topic r).0 ≡ lives now a r
  unfolding can_publish
  can_publish-stands agent topic r = ground (arith, is_paired-stands agent r)

  can_accept-stands :
      (agent topic : String) (r : Registry)
      → lives now a (can_accept wall agent topic r).0 ≡ lives now a r
  unfolding can_accept
  can_accept-stands agent topic r = is_paired-stands agent r

  list_agents-stands : (r : Registry) → lives now a (list_agents wall r).0 ≡ lives now a r
  unfolding list_agents
  list_agents-stands r = roster-stands (values r.paired) r

module _ (u : Unicode) where
  insert-lives :
      (now : ℕ) (id : String) (g : Grant) (paired : Dict String Grant) (ends : Dict String ℕ)
      (a : String)
      → lasts now (end_of (lookup a paired)) ≡ lasts now (lookup a ends)
      → lasts now (end_of (lookup a (insert id g paired)))
        ≡ lasts now (lookup a (insert id g.expires_at ends))
  insert-lives now id g paired ends a h =
      ground (arith, lookup-insert id a g paired, lookup-insert id a g.expires_at ends)

  erase-lives :
      (now : ℕ) (id : String) (paired : Dict String Grant) (ends : Dict String ℕ) (a : String)
      → lasts now (end_of (lookup a paired)) ≡ lasts now (lookup a ends)
      → lasts now (end_of (lookup a (erase id paired))) ≡ lasts now (lookup a (erase id ends))
  erase-lives now id paired ends a h =
      ground (arith, lookup-erase id a paired, lookup-erase id a ends)

  pair-lives :
      (now wall mono : ℕ) (agent : String) (m : Option (String × Fields)) (by : String)
      (r : Registry) (ends : Dict String ℕ) (a : String)
      → lives now a r ≡ lasts now (lookup a ends)
      → lives now a (pair u wall mono agent m by r).0
        ≡ lasts now (lookup a (granted u r.pairing_ttl (call_pair wall mono agent m by) ends))
  unfolding pair
  pair-lives now wall mono agent m by r ends a h =
      let id = strip u (sanitize_text u (some agent) 48) in
      elim (Bool-cases (id == "")) [
        | inl empty ↦ rw (empty, pair) h
        | inr named ↦ rw (named, pair) (insert-lives now id _ r.paired ends a h)
      ]

  unpair-lives :
      (now : ℕ) (agent : String) (r : Registry) (ends : Dict String ℕ) (a : String)
      → lives now a r ≡ lasts now (lookup a ends)
      → lives now a (unpair agent r).0 ≡ lasts now (lookup a (erase agent ends))
  unfolding unpair
  unpair-lives now agent r ends a h = ground (arith, erase-lives now agent r.paired ends a h)

  roster-ttl :
      (wall : ℕ) (gs : List Grant) (r : Registry) → (roster wall gs r).0.pairing_ttl ≡ r.pairing_ttl
  unfolding roster is_paired
  roster-ttl wall [] r = refl
  roster-ttl wall (g ∷ gs) r = ground (arith, roster-ttl wall gs r)

  call-ttl : (c : Call) (r : Registry) → (call u c r).pairing_ttl ≡ r.pairing_ttl
  unfolding pair unpair is_paired heartbeat alive list_agents can_publish can_accept
  call-ttl (call_pair wall mono agent manifest by) r = ground arith
  call-ttl (call_unpair wall agent) r = ground arith
  call-ttl (call_is_paired wall agent) r = ground arith
  call-ttl (call_heartbeat wall mono agent) r = ground arith
  call-ttl (call_alive wall mono agent) r = ground arith
  call-ttl (call_list_agents wall) r = roster-ttl wall (values r.paired) r
  call-ttl (call_can_publish wall agent topic) r = ground arith
  call-ttl (call_can_accept wall sender topic) r = ground arith

  -- A call that is no later than `now` does to the standing at `now` what it does to the grants.
  call-lives :
      (now : ℕ) (c : Call) (r : Registry) (ends : Dict String ℕ) (a : String)
      → clock c ≤ now
      → lives now a r ≡ lasts now (lookup a ends)
      → lives now a (call u c r) ≡ lasts now (lookup a (granted u r.pairing_ttl c ends))
  call-lives now (call_pair wall mono agent manifest by) r ends a past h =
      pair-lives now wall mono agent manifest by r ends a h
  call-lives now (call_unpair wall agent) r ends a past h = unpair-lives now agent r ends a h
  call-lives now (call_is_paired wall agent) r ends a past h =
      is_paired-stands now wall past a agent r ∙ h
  call-lives now (call_heartbeat wall mono agent) r ends a past h =
      heartbeat-stands now wall past a mono agent r ∙ h
  call-lives now (call_alive wall mono agent) r ends a past h =
      alive-stands now wall past a mono agent r ∙ h
  call-lives now (call_list_agents wall) r ends a past h = list_agents-stands now wall past a r ∙ h
  call-lives now (call_can_publish wall agent topic) r ends a past h =
      can_publish-stands now wall past a agent topic r ∙ h
  call-lives now (call_can_accept wall sender topic) r ends a past h =
      can_accept-stands now wall past a sender topic r ∙ h

  run-lives :
      (now : ℕ) (cs : List Call) (r : Registry) (ends : Dict String ℕ) (a : String)
      → All (λ c. clock c ≤ now) cs
      → lives now a r ≡ lasts now (lookup a ends)
      → lives now a (run u cs r) ≡ lasts now (lookup a (grants u r.pairing_ttl cs ends))
  run-lives now [] r ends a past h = h
  run-lives now (c ∷ cs) r ends a past h =
      let ends' = granted u r.pairing_ttl c ends in
      run-lives now cs (call u c r) ends' a past.1 (call-lives now c r ends a past.0 h)
      ∙ ap (λ t. lasts now (lookup a (grants u t cs ends'))) (call-ttl c r)

  -- After any sequence of calls on a new registry, none later than `now`, `is_paired` at `now` says
  -- of an agent whether its last grant, unless `unpair` took it back, has not ended by then.
  pub is_paired-grants :
      (now ttl timeout : ℕ) (cs : List Call) (agent : String)
      → All (λ c. clock c ≤ now) cs
      → (is_paired now agent (run u cs (new_registry ttl timeout))).1
        ≡ lasts now (lookup agent (grants u (max 36000 ttl) cs []))
  unfolding new_registry
  is_paired-grants now ttl timeout cs agent past =
      let r = new_registry ttl timeout in
      is_paired-lives now agent (run u cs r) ∙ run-lives now cs r [] agent past refl

-- ===== src/Agents/Order.antt =====
-- The order in which tasks leave the queue, and the agent that a task goes to
-- (RichdaleAccounting/nexus-core/src/agents/orchestrator.rs).
use rich_aim_acct_inv.Prelude.{
  ℕ, ◌≤◌, ◌≡◌, ◌==◌, refl, Bool, true, false, Option, none, some, List, [], ◌∷◌, inl, inr, arith,
  All, filter, ltb, if◌then◌else◌, Bool-cases, Option-cases, ◌∙◌, sym, eq_self, ◌⊎◌,
}
use mathlib.Core.Path.{subst}
use rich_aim_acct_inv.Prelude.OrdMap.{OrdMap, get?}
use rich_aim_acct_inv.Financial.{Uuid}
use rich_aim_acct_inv.Agents.{
  Agent, AgentOrchestrator, Task, rank, place, sort_queue, is_agent_available, first_available,
  find_available_agent, keys, assigned_ids,
}

abbrev pub elem : Uuid → List Uuid → Bool
elem id [] = false
elem id (j ∷ ids) = if j == id then true else elem id ids

unlisted : (id : Uuid) (m : OrdMap Agent) → elem id (keys m) ≡ false → get? id m ≡ none
unfolding get?
unlisted id [] h = refl
unlisted id ((j, a) ∷ m) h = ground (arith, unlisted id m)

All-elem : (Q : Uuid → Type 0) (ids : List Uuid) (id : Uuid) → All Q ids → elem id ids ≡ true → Q id
All-elem Q [] id hs h = ground arith
All-elem Q (j ∷ ids) id hs h = elim (Bool-cases (j == id)) [
  | inl same ↦ let e : j ≡ id = ground arith in subst Q e hs.0
  | inr other ↦ All-elem Q ids id hs.1 (ground arith)
]

module _ {P : Type 0} where
  abbrev pub AtMost : ℕ → Task P → Type 0
  AtMost r t = rank t.priority ≤ r

  -- Priorities never rise along the queue.
  abbrev pub Sorted : List (Task P) → Type 0
  Sorted [] = Unit
  Sorted (t ∷ ts) = All (AtMost (rank t.priority)) ts × Sorted ts

  -- The tasks of one priority, in the order in which they stand.
  abbrev pub of_rank : ℕ → List (Task P) → List (Task P)
  of_rank r ts = filter (λ t. rank t.priority == r) ts

  place-All :
      (Q : Task P → Type 0) (t : Task P) (ts : List (Task P)) → Q t → All Q ts → All Q (place t ts)
  unfolding place
  place-All Q t [] h hs = (h, tt)
  place-All Q t (u ∷ us) h hs = elim (Bool-cases (ltb (rank t.priority) (rank u.priority))) [
    | inl lower ↦ rw lower (hs.0, place-All Q t us h hs.1)
    | inr not_lower ↦ rw not_lower (h, hs)
  ]

  All-le : (a b : ℕ) → a ≤ b → (ts : List (Task P)) → All (AtMost a) ts → All (AtMost b) ts
  All-le a b le [] hs = tt
  All-le a b le (t ∷ ts) hs = (omega (arith, le, hs.0), All-le a b le ts hs.1)

  place-Sorted : (t : Task P) (ts : List (Task P)) → Sorted ts → Sorted (place t ts)
  unfolding place
  place-Sorted t [] h = (tt, tt)
  place-Sorted t (u ∷ us) h = elim (Bool-cases (ltb (rank t.priority) (rank u.priority))) [
    | inl lower ↦
        rw lower
          (place-All (AtMost (rank u.priority)) t us (ground arith) h.0, place-Sorted t us h.1)
    | inr not_lower ↦
        let le : rank u.priority ≤ rank t.priority = ground arith in
        rw not_lower ((le, All-le (rank u.priority) (rank t.priority) le us h.0), h)
  ]

  of_rank-place :
      (r : ℕ) (t : Task P) (ts : List (Task P)) → of_rank r (place t ts) ≡ of_rank r (t ∷ ts)
  unfolding place
  of_rank-place r t [] = refl
  of_rank-place r t (u ∷ us) = ground (arith, of_rank-place r t us)

  sort_queue-Sorted : (ts : List (Task P)) → Sorted (sort_queue ts)
  unfolding sort_queue
  sort_queue-Sorted [] = tt
  sort_queue-Sorted (t ∷ ts) = place-Sorted t (sort_queue ts) (sort_queue-Sorted ts)

  sort_queue_stable : (r : ℕ) (ts : List (Task P)) → of_rank r (sort_queue ts) ≡ of_rank r ts
  unfolding sort_queue
  sort_queue_stable r [] = refl
  sort_queue_stable r (t ∷ ts) =
      of_rank-place r t (sort_queue ts) ∙ ground (arith, sort_queue_stable r ts)

  -- The sorted queue goes from the highest priority to the lowest, and the tasks of each priority are
  -- those of the queue, in the same order.
  pub sort_queue_lem :
      (ts : List (Task P))
      → Sorted (sort_queue ts) × ((r : ℕ) → of_rank r (sort_queue ts) ≡ of_rank r ts)
  sort_queue_lem ts = (sort_queue-Sorted ts, λ r. sort_queue_stable r ts)

  pub sort_queue-All : (Q : Task P → Type 0) (ts : List (Task P)) → All Q ts → All Q (sort_queue ts)
  unfolding sort_queue
  sort_queue-All Q [] h = tt
  sort_queue-All Q (t ∷ ts) h = place-All Q t (sort_queue ts) h.0 (sort_queue-All Q ts h.1)

  abbrev pub Unavailable : AgentOrchestrator P → Uuid → Type 0
  Unavailable s id = is_agent_available id s ≡ false

  first_available-none :
      (ids : List Uuid) (s : AgentOrchestrator P)
      → first_available ids s ≡ none
      → All (Unavailable s) ids
  unfolding first_available
  first_available-none [] s h = tt
  first_available-none (id ∷ ids) s h = elim (Bool-cases (is_agent_available id s)) [
    | inl free ↦ ground arith
    | inr taken ↦ (taken, first_available-none ids s (ground arith))
  ]

  first_available-some :
      (ids : List Uuid) (s : AgentOrchestrator P) (id : Uuid)
      → first_available ids s ≡ some id
      → is_agent_available id s ≡ true
  unfolding first_available
  first_available-some [] s id h = cc
  first_available-some (j ∷ ids) s id h = elim (Bool-cases (is_agent_available j s)) [
    | inl free ↦ let same : j ≡ id = ground arith in rw (sym same) free
    | inr taken ↦ first_available-some ids s id (ground arith)
  ]

  first_available-elem :
      (ids : List Uuid) (s : AgentOrchestrator P) (id : Uuid)
      → first_available ids s ≡ some id
      → elem id ids ≡ true
  unfolding first_available
  first_available-elem [] s id h = cc
  first_available-elem (j ∷ ids) s id h = elim (Bool-cases (is_agent_available j s)) [
    | inl free ↦ let same : j ≡ id = ground arith in rw (same, eq_self id) refl
    | inr taken ↦
        let later : elem id ids ≡ true = first_available-elem ids s id (ground arith) in
        ground arith
  ]

  none_available :
      (s : AgentOrchestrator P)
      → All (Unavailable s) (keys s.agents)
      → (id : Uuid) → Unavailable s id
  unfolding is_agent_available
  none_available s h id = elim (Bool-cases (elem id (keys s.agents))) [
    | inl listed ↦ All-elem (Unavailable s) (keys s.agents) id h listed
    | inr not_listed ↦ rw (unlisted id s.agents not_listed) refl
  ]

  -- What the choice of an agent for a task has to be: an agent that is available, and of the assigned
  -- type unless no agent of that type is available; none only if no agent is available.
  abbrev pub Choice : Task P → AgentOrchestrator P → Option Uuid → Type 0
  Choice t s none = (id : Uuid) → Unavailable s id
  Choice t s (some id) =
      (is_agent_available id s ≡ true)
      × ((elem id (assigned_ids t.assigned_agent_type s.agents_by_type) ≡ true)
          ⊎ All (Unavailable s) (assigned_ids t.assigned_agent_type s.agents_by_type))

  -- The agent found for a task is available, and listed under the task's assigned type unless all agents
  -- listed there are unavailable; that none is found means that no agent at all is available.
  pub find_available_agent_lem :
      (t : Task P) (s : AgentOrchestrator P) → Choice t s (find_available_agent t s)
  unfolding find_available_agent
  find_available_agent_lem t s =
      let assigned : List Uuid = assigned_ids t.assigned_agent_type s.agents_by_type in
      elim (Option-cases (first_available assigned s)) [
        | inr (id, e) ↦
            let found : find_available_agent t s ≡ some id = ground (arith, e) in
            subst (Choice t s) (sym found)
              (first_available-some assigned s id e, inl (first_available-elem assigned s id e))
        | inl e ↦ elim (Option-cases (first_available (keys s.agents) s)) [
          | inr (id, e') ↦
              let found : find_available_agent t s ≡ some id = ground (arith, e, e') in
              subst (Choice t s) (sym found) (
                first_available-some (keys s.agents) s id e',
                inr (first_available-none assigned s e),
              )
          | inl e' ↦
              let found : find_available_agent t s ≡ none = ground (arith, e, e') in
              subst (Choice t s) (sym found)
                (none_available s (first_available-none (keys s.agents) s e'))
        ]
      ]

-- ===== src/Conflicts/Calls.antt =====
-- Every call on the resolver keeps the log (RichdaleAccounting/nexus-core/src/edge/conflict.rs).
use rich_aim_acct_inv.Prelude.{ℕ, refl, List, [], ◌∷◌, Result-cases, inl, inr}
use rich_aim_acct_inv.Prelude.State.{◌>>=◌, ◌>>◌, pure}
use rich_aim_acct_inv.Financial.{DateTime}
use rich_aim_acct_inv.Conflicts.{
  Codec, ConflictResolver, ConflictResolutionStrategy, ConflictWinner, Method, SyncConflict, chosen,
  get_conflict, log_conflict, write_resolution, resolved_row, with_strategy, note_strategy,
  decide_unless_manual, decide, determine_winner, resolve_with_strategy, resolve_conflict,
  resolve_manually, resolve_batch, set_strategy,
}
use rich_aim_acct_inv.Conflicts.Invariant.{IsLog, updated-IsLog, log_conflict-IsLog}

-- A method that keeps the log.
abbrev Kept : {A : Type 0} → Method A → Type 0
Kept m = (s : ConflictResolver) → IsLog s → IsLog (m s).1

Kept-bind :
    {A B : Type 0} (m : Method A) (f : A → Method B)
    → Kept m
    → ((a : A) → Kept (f a))
    → Kept (m >>= f)
Kept-bind m f h g s v = elim (Result-cases (m s).0) [
  | inl (a, e) ↦ rw (e, ◌>>=◌) (g a (m s).1 (h s v))
  | inr (x, e) ↦ rw (e, ◌>>=◌) (h s v)
]

module _ {V : Type 0} (k : Codec V) where
  write_resolution-Kept :
      (id : ℕ) (strategy : ConflictResolutionStrategy) (now : DateTime)
      (version : ConflictWinner × V × V)
      → Kept (write_resolution k id strategy now version)
  unfolding write_resolution
  write_resolution-Kept id strategy now (winner, w, l) s v = elim (Result-cases (k.to_text w)) [
    | inr (e, unwritten) ↦ rw (unwritten, write_resolution) v
    | inl (winning, written) ↦ elim (Result-cases (k.to_text l)) [
      | inr (e, unwritten) ↦ rw (written, unwritten, write_resolution) v
      | inl (losing, both) ↦
          rw (written, both, write_resolution)
            (updated-IsLog id (resolved_row k strategy winner winning losing now) s
              (λ r. (refl, refl, refl)) v)
    ]
  ]

  decide-Kept :
      (now : DateTime) (c : SyncConflict V) (strategy : ConflictResolutionStrategy) (id : ℕ)
      → Kept (decide k now c strategy id)
  decide-Kept now c strategy id =
      Kept-bind (write_resolution k id strategy now (determine_winner c strategy)) (λ _. pure _)
        (write_resolution-Kept id strategy now (determine_winner c strategy)) (λ _ s v. v)

  decide_unless_manual-Kept :
      (now : DateTime) (c : SyncConflict V) (strategy : ConflictResolutionStrategy) (id : ℕ)
      → Kept (decide_unless_manual k now c strategy id)
  decide_unless_manual-Kept now c ConflictResolutionStrategy.manual id s v = v
  decide_unless_manual-Kept now c ConflictResolutionStrategy.remote_wins id s v =
      decide-Kept now c ConflictResolutionStrategy.remote_wins id s v
  decide_unless_manual-Kept now c ConflictResolutionStrategy.local_wins id s v =
      decide-Kept now c ConflictResolutionStrategy.local_wins id s v
  decide_unless_manual-Kept now c ConflictResolutionStrategy.last_write_wins id s v =
      decide-Kept now c ConflictResolutionStrategy.last_write_wins id s v

  resolve_with_strategy-Kept :
      (now : DateTime) (c : SyncConflict V) (strategy : ConflictResolutionStrategy)
      → Kept (resolve_with_strategy k now c strategy)
  unfolding resolve_with_strategy
  resolve_with_strategy-Kept now c strategy =
      Kept-bind (log_conflict k now c)
        (λ id. note_strategy k strategy id >> decide_unless_manual k now c strategy id)
        (λ s v. log_conflict-IsLog k now c s v)
        (λ id.
          Kept-bind (note_strategy k strategy id) (λ _. decide_unless_manual k now c strategy id)
            (λ s v. updated-IsLog id (with_strategy k strategy) s (λ r. (refl, refl, refl)) v)
            (λ _. decide_unless_manual-Kept now c strategy id))

  resolve_conflict-Kept : (now : DateTime) (c : SyncConflict V) → Kept (resolve_conflict k now c)
  unfolding resolve_conflict
  resolve_conflict-Kept now c s v = resolve_with_strategy-Kept now c s.strategy s v

  resolve_manually-Kept :
      (now : DateTime) (id : ℕ) (winner : ConflictWinner) → Kept (resolve_manually k now id winner)
  unfolding resolve_manually
  resolve_manually-Kept now id winner s v = elim (Result-cases (get_conflict k id s)) [
    | inr (e, unread) ↦ rw (unread, resolve_manually) v
    | inl (entry, found) ↦ elim (Result-cases (chosen winner entry)) [
      | inr (e, none_chosen) ↦ rw (found, none_chosen, resolve_manually) v
      | inl (version, picked) ↦
          rw (found, picked, resolve_manually)
            (Kept-bind (write_resolution k id ConflictResolutionStrategy.manual now version)
              (λ _. pure _) (write_resolution-Kept id ConflictResolutionStrategy.manual now version)
              (λ _ s v. v) s v)
    ]
  ]

  resolve_batch-Kept : (now : DateTime) (cs : List (SyncConflict V)) → Kept (resolve_batch k now cs)
  unfolding resolve_batch
  resolve_batch-Kept now [] s v = v
  resolve_batch-Kept now (c ∷ cs) s v =
      Kept-bind (resolve_conflict k now c) (λ r. resolve_batch k now cs >>= λ rs. pure (r ∷ rs))
        (resolve_conflict-Kept now c)
        (λ r.
          Kept-bind (resolve_batch k now cs) (λ rs. pure (r ∷ rs)) (resolve_batch-Kept now cs)
            (λ _ s v. v))
        s v

-- A call on the resolver that can change it.
pub data Call (V : Type 0) : Type 0 where
  log : DateTime → SyncConflict V → Call V
  resolve : DateTime → SyncConflict V → Call V
  resolve_with : DateTime → SyncConflict V → ConflictResolutionStrategy → Call V
  manually : DateTime → ℕ → ConflictWinner → Call V
  batch : DateTime → List (SyncConflict V) → Call V
  strategy_to : ConflictResolutionStrategy → Call V

module _ {V : Type 0} (k : Codec V) where
  abbrev pub outcome : Call V → ConflictResolver → ConflictResolver
  outcome (log now c) s = (log_conflict k now c s).1
  outcome (resolve now c) s = (resolve_conflict k now c s).1
  outcome (resolve_with now c strategy) s = (resolve_with_strategy k now c strategy s).1
  outcome (manually now id winner) s = (resolve_manually k now id winner s).1
  outcome (batch now cs) s = (resolve_batch k now cs s).1
  outcome (strategy_to strategy) s = set_strategy strategy s

  -- Whatever call is made on the resolver, and however it ends: the log keeps at most one entry for
  -- each entity, the ids in it stay distinct, and the next id stays above all of them.
  pub outcome-IsLog : (call : Call V) (s : ConflictResolver) → IsLog s → IsLog (outcome call s)
  unfolding set_strategy
  outcome-IsLog (log now c) s v = log_conflict-IsLog k now c s v
  outcome-IsLog (resolve now c) s v = resolve_conflict-Kept k now c s v
  outcome-IsLog (resolve_with now c strategy) s v = resolve_with_strategy-Kept k now c strategy s v
  outcome-IsLog (manually now id winner) s v = resolve_manually-Kept k now id winner s v
  outcome-IsLog (batch now cs) s v = resolve_batch-Kept k now cs s v
  outcome-IsLog (strategy_to strategy) s v = record { below = v.below; separate = v.separate }

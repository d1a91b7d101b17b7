-- ===== src/Conflicts/Winners.antt =====
-- Who wins a conflict (RichdaleAccounting/nexus-core/src/edge/conflict.rs).
use mathlib.Core.Path.{subst}
use rich_aim_acct_inv.Prelude.{
  ◌≢◌, ℕ, ◌≡◌, ◌≤◌, ◌<◌, ◌⊎◌, refl, arith, inl, inr, ok, ltb, Bool-cases,
}
use rich_aim_acct_inv.Prelude.State.{◌>>◌, pure, >>=-eq-ok}
use rich_aim_acct_inv.Financial.{DateTime}
use rich_aim_acct_inv.Conflicts.{
  Codec, ConflictResolver, ConflictResolutionStrategy, ConflictWinner, ResolvedConflict,
  SyncConflict, resolved_conflict, write_resolution, note_strategy, decide, decide_unless_manual,
  determine_winner, resolve_with_strategy, log_conflict,
}

module _ {V : Type 0} where
  -- The version that a resolution keeps, and the one that it sets aside: those of the side that wins.
  abbrev pub Takes : ConflictWinner → SyncConflict V → ResolvedConflict V → Type 0
  Takes ConflictWinner.local c r =
      (r.winner ≡ ConflictWinner.local)
      × (r.winning_data ≡ c.local_data)
      × (r.losing_data ≡ c.remote_data)
  Takes ConflictWinner.remote c r =
      (r.winner ≡ ConflictWinner.remote)
      × (r.winning_data ≡ c.remote_data)
      × (r.losing_data ≡ c.local_data)
  Takes ConflictWinner.manual c r = ⊥

  -- What each strategy promises: the side it names wins, the later modification wins, with the
  -- remote one at the same time, and the manual strategy decides nothing.
  abbrev pub Promised : ConflictResolutionStrategy → SyncConflict V → ResolvedConflict V → Type 0
  Promised ConflictResolutionStrategy.remote_wins c r = Takes ConflictWinner.remote c r
  Promised ConflictResolutionStrategy.local_wins c r = Takes ConflictWinner.local c r
  Promised ConflictResolutionStrategy.last_write_wins c r =
      ((c.remote_modified_at < c.local_modified_at) × Takes ConflictWinner.local c r)
      ⊎ ((c.local_modified_at ≤ c.remote_modified_at) × Takes ConflictWinner.remote c r)
  Promised ConflictResolutionStrategy.manual c r = ⊥

module _ {V : Type 0} (k : Codec V) where
  promised :
      (id : ℕ) (c : SyncConflict V) (strategy : ConflictResolutionStrategy) (now : DateTime)
      → strategy ≢ ConflictResolutionStrategy.manual
      → Promised strategy c (resolved_conflict k id c strategy now (determine_winner c strategy))
  unfolding determine_winner
  promised id c ConflictResolutionStrategy.remote_wins now h = (refl, refl, refl)
  promised id c ConflictResolutionStrategy.local_wins now h = (refl, refl, refl)
  promised id c ConflictResolutionStrategy.last_write_wins now h =
      elim (Bool-cases (ltb c.remote_modified_at c.local_modified_at)) [
        | inl later ↦ rw later (inl (ground arith, (refl, refl, refl)))
        | inr earlier ↦ rw earlier (inr (ground arith, (refl, refl, refl)))
      ]
  promised id c ConflictResolutionStrategy.manual now h = absurd (h refl)

  decided :
      (now : DateTime) (c : SyncConflict V) (strategy : ConflictResolutionStrategy) (id : ℕ)
      (s s' : ConflictResolver) (r : ResolvedConflict V)
      → strategy ≢ ConflictResolutionStrategy.manual
      → decide k now c strategy id s ≡ (ok r, s')
      → Promised strategy c r
  decided now c strategy id s s' r other h =
      let (u, s1, first, last) =
        >>=-eq-ok (write_resolution k id strategy now (determine_winner c strategy))
          (λ _. pure (resolved_conflict k id c strategy now (determine_winner c strategy))) s s' r
          h in
      let same : resolved_conflict k id c strategy now (determine_winner c strategy) ≡ r =
        ground (arith, last) in
      subst (Promised strategy c) same (promised id c strategy now other)

  decided_unless_manual :
      (now : DateTime) (c : SyncConflict V) (strategy : ConflictResolutionStrategy) (id : ℕ)
      (s s' : ConflictResolver) (r : ResolvedConflict V)
      → decide_unless_manual k now c strategy id s ≡ (ok r, s')
      → Promised strategy c r
  decided_unless_manual now c ConflictResolutionStrategy.manual id s s' r h =
      let no_way : ⊥ = ground arith in absurd no_way
  decided_unless_manual now c ConflictResolutionStrategy.remote_wins id s s' r h =
      decided now c ConflictResolutionStrategy.remote_wins id s s' r (λ e. ground arith) h
  decided_unless_manual now c ConflictResolutionStrategy.local_wins id s s' r h =
      decided now c ConflictResolutionStrategy.local_wins id s s' r (λ e. ground arith) h
  decided_unless_manual now c ConflictResolutionStrategy.last_write_wins id s s' r h =
      decided now c ConflictResolutionStrategy.last_write_wins id s s' r (λ e. ground arith) h

  -- Whenever a conflict is resolved, the resolution keeps what its strategy promises and sets the
  -- other version aside: the remote or the local one by the strategies that name it, and by last
  -- write wins the one modified later, or the remote one at equal times. The manual strategy
  -- resolves nothing.
  pub resolve_with_strategy-Promised :
      (now : DateTime) (c : SyncConflict V) (strategy : ConflictResolutionStrategy)
      (s s' : ConflictResolver) (r : ResolvedConflict V)
      → resolve_with_strategy k now c strategy s ≡ (ok r, s')
      → Promised strategy c r
  unfolding resolve_with_strategy
  resolve_with_strategy-Promised now c strategy s s' r h =
      let (id, s1, logged, rest) =
        >>=-eq-ok (log_conflict k now c)
          (λ i. note_strategy k strategy i >> decide_unless_manual k now c strategy i) s s' r h in
      let (u, s2, noted, last) =
        >>=-eq-ok (note_strategy k strategy id) (λ _. decide_unless_manual k now c strategy id) s1
          s' r rest in
      decided_unless_manual now c strategy id s2 s' r last

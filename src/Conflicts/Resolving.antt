-- ===== src/Conflicts/Resolving.antt =====
-- Resolving conflicts (RichdaleAccounting/nexus-core/src/edge/conflict.rs).
use rich_aim_acct_inv.Prelude.{ℕ, ltb, if◌then◌else◌, some, List, [], ◌∷◌, String, Result, ok, err}
use rich_aim_acct_inv.Prelude.State.{◌>>=◌, ◌>>◌, pure, throw}
use rich_aim_acct_inv.Financial.{DateTime}
use rich_aim_acct_inv.Conflicts.Defs.{
  Codec, ConflictError, ConflictLogEntry, ConflictResolver, ConflictResolutionStrategy,
  ConflictWinner, LogRow, Method, ResolvedConflict, SyncConflict,
}
use rich_aim_acct_inv.Conflicts.Names.{strategy_to_str, winner_to_str}
use rich_aim_acct_inv.Conflicts.Log.{log_conflict, get_conflict, update_row, with_rows}

-- `set_strategy`
unfoldable pub set_strategy : ConflictResolutionStrategy → ConflictResolver → ConflictResolver
set_strategy strategy s = record s { strategy = strategy }

module _ {V : Type 0} where
  abbrev pub remote_version : SyncConflict V → ConflictWinner × V × V
  remote_version c = (ConflictWinner.remote, c.remote_data, c.local_data)

  abbrev pub local_version : SyncConflict V → ConflictWinner × V × V
  local_version c = (ConflictWinner.local, c.local_data, c.remote_data)

  -- The winner, and the winning and the losing data.
  unfoldable pub determine_winner :
      SyncConflict V → ConflictResolutionStrategy → ConflictWinner × V × V
  determine_winner c ConflictResolutionStrategy.remote_wins = remote_version c
  determine_winner c ConflictResolutionStrategy.local_wins = local_version c
  determine_winner c ConflictResolutionStrategy.last_write_wins =
      if ltb c.remote_modified_at c.local_modified_at then local_version c else remote_version c
  determine_winner c ConflictResolutionStrategy.manual =
      (ConflictWinner.manual, c.remote_data, c.local_data)

  -- The version that a human has chosen of a logged conflict.
  abbrev pub chosen :
      ConflictWinner → ConflictLogEntry V → Result ConflictError (ConflictWinner × V × V)
  chosen ConflictWinner.local e = ok (ConflictWinner.local, e.local_data, e.remote_data)
  chosen ConflictWinner.remote e = ok (ConflictWinner.remote, e.remote_data, e.local_data)
  chosen ConflictWinner.manual e = err (
      ConflictError.invalid_strategy
        "Manual winner is not valid for resolve_manually. Use Local or Remote.")

  module _ (k : Codec V) where
    open k use {to_text, time_text}

    -- A row with its resolution.
    abbrev pub resolved_row :
        ConflictResolutionStrategy → ConflictWinner → String → String → DateTime → LogRow → LogRow
    resolved_row strategy winner winning losing now r = record r {
      resolution = strategy_to_str strategy;
      winner = some (winner_to_str winner);
      winning_data = some winning;
      losing_data = some losing;
      resolved_at = some (time_text now);
    }

    -- Writing a resolution, after both versions are serialized.
    unfoldable pub write_resolution :
        ℕ → ConflictResolutionStrategy → DateTime → ConflictWinner × V × V → Method (Unit {0})
    unfolding update_row
    write_resolution id strategy now (winner, winning_data, losing_data) s =
        elim (to_text winning_data) [
          | err e ↦ (err (ConflictError.serialization e), s)
          | ok winning ↦ elim (to_text losing_data) [
            | err e ↦ (err (ConflictError.serialization e), s)
            | ok losing ↦ (
              ok tt,
              with_rows (update_row id (resolved_row strategy winner winning losing now)) s,
            )
          ]
        ]

    abbrev pub resolved_conflict :
        ℕ
        → SyncConflict V
        → ConflictResolutionStrategy
        → DateTime
        → ConflictWinner × V × V
        → ResolvedConflict V
    resolved_conflict id c strategy now (winner, winning_data, losing_data) = record {
      conflict_id = id;
      entity_type = c.entity_type;
      entity_id = c.entity_id;
      winner = winner;
      winning_data = winning_data;
      losing_data = losing_data;
      local_modified_at = c.local_modified_at;
      remote_modified_at = c.remote_modified_at;
      resolved_at = now;
      strategy = strategy;
    }

    abbrev pub decide :
        DateTime → SyncConflict V → ConflictResolutionStrategy → ℕ → Method (ResolvedConflict V)
    decide now c strategy id =
        write_resolution id strategy now (determine_winner c strategy)
        >> pure (resolved_conflict id c strategy now (determine_winner c strategy))

    -- A manual strategy leaves the conflict in the log and fails.
    abbrev pub decide_unless_manual :
        DateTime → SyncConflict V → ConflictResolutionStrategy → ℕ → Method (ResolvedConflict V)
    decide_unless_manual now c ConflictResolutionStrategy.manual id =
        throw (ConflictError.manual_required id)
    decide_unless_manual now c ConflictResolutionStrategy.remote_wins id =
        decide now c ConflictResolutionStrategy.remote_wins id
    decide_unless_manual now c ConflictResolutionStrategy.local_wins id =
        decide now c ConflictResolutionStrategy.local_wins id
    decide_unless_manual now c ConflictResolutionStrategy.last_write_wins id =
        decide now c ConflictResolutionStrategy.last_write_wins id

    abbrev pub with_strategy : ConflictResolutionStrategy → LogRow → LogRow
    with_strategy strategy r = record r { resolution = strategy_to_str strategy }

    abbrev pub note_strategy : ConflictResolutionStrategy → ℕ → Method (Unit {0})
    note_strategy strategy id s = (ok tt, with_rows (update_row id (with_strategy strategy)) s)

    unfoldable pub resolve_with_strategy :
        DateTime → SyncConflict V → ConflictResolutionStrategy → Method (ResolvedConflict V)
    unfolding log_conflict write_resolution determine_winner
    resolve_with_strategy now c strategy = do
      id ← log_conflict k now c
      note_strategy strategy id
      decide_unless_manual now c strategy id

    unfoldable pub resolve_conflict : DateTime → SyncConflict V → Method (ResolvedConflict V)
    unfolding resolve_with_strategy
    resolve_conflict now c s = resolve_with_strategy now c s.strategy s

    abbrev pub manually_resolved :
        ℕ → ConflictLogEntry V → DateTime → ConflictWinner × V × V → ResolvedConflict V
    manually_resolved id e now (winner, winning_data, losing_data) = record {
      conflict_id = id;
      entity_type = e.entity_type;
      entity_id = e.entity_id;
      winner = winner;
      winning_data = winning_data;
      losing_data = losing_data;
      local_modified_at = e.local_modified_at;
      remote_modified_at = e.remote_modified_at;
      resolved_at = now;
      strategy = ConflictResolutionStrategy.manual;
    }

    unfoldable pub resolve_manually : DateTime → ℕ → ConflictWinner → Method (ResolvedConflict V)
    unfolding get_conflict write_resolution
    resolve_manually now id winner s = elim (get_conflict k id s) [
      | err e ↦ (err e, s)
      | ok entry ↦ elim (chosen winner entry) [
        | err e ↦ (err e, s)
        | ok version ↦
            (write_resolution id ConflictResolutionStrategy.manual now version
                >> pure (manually_resolved id entry now version))
              s
      ]
    ]

    -- The first error ends the batch; what was resolved before it stays resolved.
    unfoldable pub resolve_batch :
        DateTime → List (SyncConflict V) → Method (List (ResolvedConflict V))
    unfolding resolve_conflict
    resolve_batch now [] = pure []
    resolve_batch now (c ∷ cs) = do
      r ← resolve_conflict now c
      rs ← resolve_batch now cs
      pure (r ∷ rs)

-- ===== src/Conflicts/Log.antt =====
-- Writing to and reading from the log (RichdaleAccounting/nexus-core/src/edge/conflict.rs).
use Prim.Native.Nat.{Ordering}
use Prim.Native.String.{compare}
use rich_aim_acct_inv.Prelude.{
  ℕ, ◌+◌, ◌==◌, Bool, true, false, ◌&&◌, not, ltb, if◌then◌else◌, Option, none, some, List, [], ◌∷◌,
  ◌++◌, String, str_eq, Result, ok, err, filter, find, length,
}
use rich_aim_acct_inv.Financial.{DateTime}
use rich_aim_acct_inv.Ledger.{is_some}
use rich_aim_acct_inv.Conflicts.Defs.{
  Codec, ConflictError, ConflictLogEntry, ConflictResolver, ConflictResolutionStrategy, LogRow,
  Method, SyncConflict,
}
use rich_aim_acct_inv.Conflicts.Names.{strategy_to_str, str_to_strategy, str_to_winner}

-- UPDATE conflict_log .. WHERE id = ..
unfoldable pub update_row : ℕ → (LogRow → LogRow) → List LogRow → List LogRow
update_row id f [] = []
update_row id f (r ∷ rows) = (if r.id == id then f r else r) ∷ update_row id f rows

-- SELECT * FROM conflict_log WHERE id = ..
abbrev pub row_by_id : ℕ → List LogRow → Option LogRow
row_by_id id rows = find (λ r. r.id == id) rows

abbrev pub is_of_entity : String → String → LogRow → Bool
is_of_entity entity_type entity_id r =
    str_eq r.entity_type entity_type && str_eq r.entity_id entity_id

-- SELECT id .. WHERE entity_type = .. AND entity_id = .. ORDER BY id DESC LIMIT 1
unfoldable pub latest : String → String → List LogRow → Option ℕ
latest entity_type entity_id [] = none
latest entity_type entity_id (r ∷ rows) = elim (latest entity_type entity_id rows) [
  | some id ↦ some id
  | none ↦ if is_of_entity entity_type entity_id r then some r.id else none
]

abbrev pub with_rows : (List LogRow → List LogRow) → ConflictResolver → ConflictResolver
with_rows f s = record s { rows = f s.rows }

module _ {V : Type 0} (k : Codec V) where
  open k use {to_text, of_text, time_text, time_of}

  -- A row with a fresh conflict, unresolved.
  abbrev pub fresh_row :
      ConflictResolutionStrategy → DateTime → SyncConflict V → String → String → LogRow → LogRow
  fresh_row strategy now c local_data remote_data r = record r {
    local_data = local_data;
    remote_data = remote_data;
    local_modified_at = time_text c.local_modified_at;
    remote_modified_at = time_text c.remote_modified_at;
    resolution = strategy_to_str strategy;
    winner = none;
    winning_data = none;
    losing_data = none;
    resolved_at = none;
    created_at = time_text now;
  }

  -- The row that INSERT makes.
  abbrev pub inserted_row :
      ℕ → ConflictResolutionStrategy → DateTime → SyncConflict V → String → String → LogRow
  inserted_row id strategy now c local_data remote_data = record {
    id = id;
    entity_type = c.entity_type;
    entity_id = c.entity_id;
    local_data = local_data;
    remote_data = remote_data;
    local_modified_at = time_text c.local_modified_at;
    remote_modified_at = time_text c.remote_modified_at;
    resolution = strategy_to_str strategy;
    winner = none;
    winning_data = none;
    losing_data = none;
    resolved_at = none;
    created_at = time_text now;
  }

  -- UPDATE of the entity's entry if there is one, INSERT otherwise.
  unfoldable pub write_conflict : DateTime → SyncConflict V → String → String → Option ℕ → Method ℕ
  unfolding update_row
  write_conflict now c local_data remote_data (some id) s =
      (ok id, with_rows (update_row id (fresh_row s.strategy now c local_data remote_data)) s)
  write_conflict now c local_data remote_data none s = (
    ok s.next_id,
    record s {
      rows = s.rows ++ inserted_row s.next_id s.strategy now c local_data remote_data ∷ [];
      next_id = s.next_id + 1;
    },
  )

  unfoldable pub log_conflict : DateTime → SyncConflict V → Method ℕ
  unfolding write_conflict latest
  log_conflict now c s = elim (to_text c.local_data) [
    | err e ↦ (err (ConflictError.serialization e), s)
    | ok local_data ↦ elim (to_text c.remote_data) [
      | err e ↦ (err (ConflictError.serialization e), s)
      | ok remote_data ↦
          write_conflict now c local_data remote_data (latest c.entity_type c.entity_id s.rows) s
    ]
  ]

  -- `s.and_then(|s| parse(&s).ok())`
  abbrev pub read_optional : {E A : Type 0} → (String → Result E A) → Option String → Option A
  read_optional f none = none
  read_optional f (some s) = elim (f s) [ ok a ↦ some a | err e ↦ none ]

  -- The columns that must be readable, in the order in which they are read.
  unfoldable pub row_to_conflict_log_entry : LogRow → Result ConflictError (ConflictLogEntry V)
  unfolding str_to_strategy str_to_winner
  row_to_conflict_log_entry r = elim (of_text r.local_data) [
    | err e ↦ err (ConflictError.serialization e)
    | ok local_data ↦ elim (of_text r.remote_data) [
      | err e ↦ err (ConflictError.serialization e)
      | ok remote_data ↦ elim (time_of r.local_modified_at) [
        | err e ↦ err (ConflictError.serialization e)
        | ok local_modified_at ↦ elim (time_of r.remote_modified_at) [
          | err e ↦ err (ConflictError.serialization e)
          | ok remote_modified_at ↦ elim (str_to_strategy r.resolution) [
            | err e ↦ err e
            | ok resolution ↦ elim (time_of r.created_at) [
              | err e ↦ err (ConflictError.serialization e)
              | ok created_at ↦ ok (record {
                id = r.id;
                entity_type = r.entity_type;
                entity_id = r.entity_id;
                local_data = local_data;
                remote_data = remote_data;
                local_modified_at = local_modified_at;
                remote_modified_at = remote_modified_at;
                resolution = resolution;
                winner = read_optional str_to_winner r.winner;
                winning_data = read_optional of_text r.winning_data;
                losing_data = read_optional of_text r.losing_data;
                resolved_at = read_optional time_of r.resolved_at;
                created_at = created_at;
              })
            ]
          ]
        ]
      ]
    ]
  ]

  unfoldable pub get_conflict : ℕ → ConflictResolver → Result ConflictError (ConflictLogEntry V)
  unfolding row_to_conflict_log_entry
  get_conflict id s = elim (row_by_id id s.rows) [
    | none ↦ err (ConflictError.not_found id)
    | some r ↦ row_to_conflict_log_entry r
  ]

  -- `collect` into a Result: the first row that cannot be read is the error.
  unfoldable pub read_rows : List LogRow → Result ConflictError (List (ConflictLogEntry V))
  unfolding row_to_conflict_log_entry
  read_rows [] = ok []
  read_rows (r ∷ rows) = elim (row_to_conflict_log_entry r) [
    | err e ↦ err e
    | ok entry ↦ elim (read_rows rows) [ err e ↦ err e | ok entries ↦ ok (entry ∷ entries) ]
  ]

-- ORDER BY .. DESC, id DESC: whether the first row comes before the second.
abbrev pub comes_first : (LogRow → String) → LogRow → LogRow → Bool
comes_first column r s = elim (compare (column r) (column s)) [
  | Ordering.gt ↦ true
  | Ordering.eq ↦ ltb s.id r.id
  | Ordering.lt ↦ false
]

abbrev put_row : (LogRow → String) → LogRow → List LogRow → List LogRow
put_row column r [] = r ∷ []
put_row column r (s ∷ rows) =
    if comes_first column r s then r ∷ s ∷ rows else s ∷ put_row column r rows

unfoldable pub order_by : (LogRow → String) → List LogRow → List LogRow
order_by column [] = []
order_by column (r ∷ rows) = put_row column r (order_by column rows)

abbrev pub is_unresolved : LogRow → Bool
is_unresolved r = not (is_some r.resolved_at)

abbrev pub text_or_empty : Option String → String
text_or_empty none = ""
text_or_empty (some s) = s

module _ {V : Type 0} (k : Codec V) where
  unfoldable pub get_conflicts : ConflictResolver → Result ConflictError (List (ConflictLogEntry V))
  unfolding read_rows order_by
  get_conflicts s = read_rows k (order_by (λ r. r.created_at) s.rows)

  unfoldable pub get_unresolved_conflicts :
      ConflictResolver → Result ConflictError (List (ConflictLogEntry V))
  unfolding read_rows order_by
  get_unresolved_conflicts s =
      read_rows k (order_by (λ r. r.created_at) (filter is_unresolved s.rows))

  unfoldable pub get_resolved_conflicts :
      ConflictResolver → Result ConflictError (List (ConflictLogEntry V))
  unfolding read_rows order_by
  get_resolved_conflicts s =
      read_rows k
        (order_by (λ r. text_or_empty r.resolved_at) (filter (λ r. is_some r.resolved_at) s.rows))

unfoldable pub count_unresolved : ConflictResolver → ℕ
count_unresolved s = length (filter is_unresolved s.rows)

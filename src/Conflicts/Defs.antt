-- ===== src/Conflicts/Defs.antt =====
-- Conflicts between local and remote versions, and their log
-- (RichdaleAccounting/nexus-core/src/edge/conflict.rs). The table `conflict_log` is the list of its rows in
-- the order of their ids; each SQL statement is the function that it denotes.
use rich_aim_acct_inv.Prelude.{ℕ, ◌≡◌, ◌<◌, Bool, true, false, Option, List, [], String, Result, ok}
use rich_aim_acct_inv.Prelude.State.{Action}
use rich_aim_acct_inv.Financial.{DateTime}

pub data ConflictResolutionStrategy : Type 0 where
  remote_wins local_wins last_write_wins manual : ConflictResolutionStrategy

pub data ConflictWinner : Type 0 where
  local remote manual : ConflictWinner

-- `unknown_strategy` and `unknown_winner` are `InvalidStrategy` with the text that they name.
pub data ConflictError : Type 0 where
  not_found manual_required : ℕ → ConflictError
  db_error store_error serialization invalid_strategy : String → ConflictError
  unknown_strategy unknown_winner : String → ConflictError

-- What `serde_json` and `chrono` do with JSON values and times. `serde_json` reads back the text of a
-- value that is nested less than 128 deep, its limit on recursion, and has no floating-point number,
-- which its default parser need not read exactly. `chrono` reads back a time in RFC 3339 whose year
-- has four digits.
pub record Codec (V : Type 0) : Type 0 where
  pub to_text : V → Result String String
  pub of_text : String → Result String V
  pub time_text : DateTime → String
  pub time_of : String → Result String DateTime
  pub depth : V → ℕ
  pub has_floats : V → Bool
  pub has_four_digit_year : DateTime → Bool
  pub of_text-to_text :
      (v : V) (s : String)
      → depth v < 128
      → has_floats v ≡ false
      → to_text v ≡ ok s
      → of_text s ≡ ok v
  pub time_of-time_text :
      (t : DateTime) → has_four_digit_year t ≡ true → time_of (time_text t) ≡ ok t

pub record SyncConflict (V : Type 0) : Type 0 where
  pub entity_type : String
  pub entity_id : String
  pub local_data : V
  pub remote_data : V
  pub local_modified_at : DateTime
  pub remote_modified_at : DateTime

pub record ResolvedConflict (V : Type 0) : Type 0 where
  pub conflict_id : ℕ
  pub entity_type : String
  pub entity_id : String
  pub winner : ConflictWinner
  pub winning_data : V
  pub losing_data : V
  pub local_modified_at : DateTime
  pub remote_modified_at : DateTime
  pub resolved_at : DateTime
  pub strategy : ConflictResolutionStrategy

pub record ConflictLogEntry (V : Type 0) : Type 0 where
  pub id : ℕ
  pub entity_type : String
  pub entity_id : String
  pub local_data : V
  pub remote_data : V
  pub local_modified_at : DateTime
  pub remote_modified_at : DateTime
  pub resolution : ConflictResolutionStrategy
  pub winner : Option ConflictWinner
  pub winning_data : Option V
  pub losing_data : Option V
  pub resolved_at : Option DateTime
  pub created_at : DateTime

-- A row of `conflict_log`.
pub record LogRow : Type 0 where
  pub id : ℕ
  pub entity_type : String
  pub entity_id : String
  pub local_data : String
  pub remote_data : String
  pub local_modified_at : String
  pub remote_modified_at : String
  pub resolution : String
  pub winner : Option String
  pub winning_data : Option String
  pub losing_data : Option String
  pub resolved_at : Option String
  pub created_at : String

-- The resolver with its table; `next_id` is the id that AUTOINCREMENT gives next.
pub record ConflictResolver : Type 0 where
  pub rows : List LogRow
  pub next_id : ℕ
  pub strategy : ConflictResolutionStrategy

abbrev pub Method : Type 0 → Type 0
Method A = Action ConflictResolver ConflictError A

-- `ConflictResolver::new` over an empty database
abbrev pub new_resolver : ConflictResolutionStrategy → ConflictResolver
new_resolver strategy = record { rows = []; next_id = 1; strategy = strategy }

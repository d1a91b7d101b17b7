-- ===== src/Conflicts/Names.antt =====
-- The names of strategies, winners and tables (RichdaleAccounting/nexus-core/src/edge/conflict.rs).
use rich_aim_acct_inv.Prelude.{
  ◌≡◌, refl, Option, none, some, String, str_eq, Result, ok, err, if◌then◌else◌,
}
use rich_aim_acct_inv.Conflicts.Defs.{ConflictResolutionStrategy, ConflictWinner, ConflictError}

unfoldable pub entity_type_to_table : String → Option String
entity_type_to_table entity_type =
    if str_eq entity_type "account"
    then some "accounts"
    else if str_eq entity_type "transaction"
    then some "transactions"
    else if str_eq entity_type "journal_entry"
    then some "journal_entries"
    else if str_eq entity_type "transaction_entry"
    then some "transaction_entries"
    else if str_eq entity_type "invoice"
    then some "invoices"
    else if str_eq entity_type "bill"
    then some "bills"
    else if str_eq entity_type "asset"
    then some "assets"
    else none

abbrev pub strategy_to_str : ConflictResolutionStrategy → String
strategy_to_str ConflictResolutionStrategy.remote_wins = "RemoteWins"
strategy_to_str ConflictResolutionStrategy.local_wins = "LocalWins"
strategy_to_str ConflictResolutionStrategy.last_write_wins = "LastWriteWins"
strategy_to_str ConflictResolutionStrategy.manual = "Manual"

unfoldable pub str_to_strategy : String → Result ConflictError ConflictResolutionStrategy
str_to_strategy s =
    if str_eq s "RemoteWins"
    then ok ConflictResolutionStrategy.remote_wins
    else if str_eq s "LocalWins"
    then ok ConflictResolutionStrategy.local_wins
    else if str_eq s "LastWriteWins"
    then ok ConflictResolutionStrategy.last_write_wins
    else if str_eq s "Manual"
    then ok ConflictResolutionStrategy.manual
    else err (ConflictError.unknown_strategy s)

abbrev pub winner_to_str : ConflictWinner → String
winner_to_str ConflictWinner.local = "Local"
winner_to_str ConflictWinner.remote = "Remote"
winner_to_str ConflictWinner.manual = "Manual"

unfoldable pub str_to_winner : String → Result ConflictError ConflictWinner
str_to_winner s =
    if str_eq s "Local"
    then ok ConflictWinner.local
    else if str_eq s "Remote"
    then ok ConflictWinner.remote
    else if str_eq s "Manual"
    then ok ConflictWinner.manual
    else err (ConflictError.unknown_winner s)

-- A strategy and a winner are read back from their names.
pub str_to_strategy-strategy_to_str :
    (s : ConflictResolutionStrategy) → str_to_strategy (strategy_to_str s) ≡ ok s
unfolding str_to_strategy
str_to_strategy-strategy_to_str ConflictResolutionStrategy.remote_wins = refl
str_to_strategy-strategy_to_str ConflictResolutionStrategy.local_wins = refl
str_to_strategy-strategy_to_str ConflictResolutionStrategy.last_write_wins = refl
str_to_strategy-strategy_to_str ConflictResolutionStrategy.manual = refl

pub str_to_winner-winner_to_str : (w : ConflictWinner) → str_to_winner (winner_to_str w) ≡ ok w
unfolding str_to_winner
str_to_winner-winner_to_str ConflictWinner.local = refl
str_to_winner-winner_to_str ConflictWinner.remote = refl
str_to_winner-winner_to_str ConflictWinner.manual = refl

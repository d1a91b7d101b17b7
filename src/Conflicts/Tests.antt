-- ===== src/Conflicts/Tests.antt =====
-- Conflicts over two invoices (RichdaleAccounting/nexus-core/src/edge/conflict.rs).
use Prim.Native.String.{[], ◌∷◌}
use rich_aim_acct_inv.Prelude.{
  ℕ, ◌≡◌, ◌+◌, arith, refl, sym, zero, suc, ap, [] as []ᴸ, ◌∷◌ as ◌∷ᴸ◌, some, none, Option, String,
  false, ltb, Result, ok, err,
}
use rich_aim_acct_inv.Conflicts.{
  Codec, ConflictResolver, ConflictResolutionStrategy, ConflictWinner, ConflictError,
  ResolvedConflict, SyncConflict, new_resolver, log_conflict, get_conflict, resolve_conflict,
  resolve_with_strategy, resolve_manually, resolve_batch, count_unresolved, ConflictLogEntry,
}
use rich_aim_acct_inv.Conflicts.Invariant.{IsLog}
use rich_aim_acct_inv.Conflicts.Calls.{Call, outcome, outcome-IsLog}
use rich_aim_acct_inv.Conflicts.Reading.{IsReadable, Tells, log_conflict-get_conflict}
use rich_aim_acct_inv.Conflicts.Winners.{Promised, resolve_with_strategy-Promised}

-- Times are written as tallies, and the data is text already.
abbrev tally : ℕ → String
tally zero = ""
tally (suc n) = "I" ∷ tally n

abbrev count : String → ℕ
count [] = 0
count (c ∷ s) = count s + 1

count-tally : (n : ℕ) → count (tally n) ≡ n
count-tally zero = refl
count-tally (suc n) = let ih = count-tally n in ground arith

unchanged :
    (v s : String)
    → ◌≡◌ {A = Result String String} (ok v) (ok s)
    → ◌≡◌ {A = Result String String} (ok s) (ok v)
unchanged v s h = sym h

abbrev plain : Codec String
plain = record {
  to_text = λ v. ok v;
  of_text = λ s. ok s;
  time_text = tally;
  time_of = λ s. ok (count s);
  depth = λ v. 0;
  has_floats = λ v. false;
  has_four_digit_year = λ t. ltb t 100;
  of_text-to_text = λ v s flat exact. unchanged v s;
  time_of-time_text = λ t h. ap (λ n. ok n) (count-tally t);
}

-- The remote version of the invoice is the later one.
abbrev invoice : SyncConflict String
invoice = record {
  entity_type = "invoice";
  entity_id = "7";
  local_data = "draft";
  remote_data = "sent";
  local_modified_at = 2;
  remote_modified_at = 3;
}

abbrev bill : SyncConflict String
bill = record {
  entity_type = "bill";
  entity_id = "8";
  local_data = "open";
  remote_data = "paid";
  local_modified_at = 4;
  remote_modified_at = 4;
}

abbrev start : ConflictResolver
start = new_resolver ConflictResolutionStrategy.last_write_wins

start-IsLog : IsLog start
start-IsLog = record { below = tt; separate = tt }

-- The invoice's conflict is resolved, then another one of the bill is logged.
abbrev resolved : ConflictResolver
unfolding resolve_conflict
resolved = (resolve_conflict plain 5 invoice start).1

resolved-IsLog : IsLog resolved
unfolding resolve_conflict
resolved-IsLog = outcome-IsLog plain (Call.resolve 5 invoice) start start-IsLog

abbrev summary :
    Result ConflictError (ResolvedConflict String) → Option (ℕ × ConflictWinner × String × String)
summary (ok r) = some (r.conflict_id, r.winner, r.winning_data, r.losing_data)
summary (err e) = none

remote_is_later :
    summary (resolve_conflict plain 5 invoice start).0
    ≡ some (1, ConflictWinner.remote, "sent", "draft")
unfolding resolve_conflict
remote_is_later = refl

-- At equal times the remote version wins.
at_equal_times :
    summary (resolve_conflict plain 5 bill start).0
    ≡ some (1, ConflictWinner.remote, "paid", "open")
unfolding resolve_conflict
at_equal_times = refl

manual_stays_logged :
    ((resolve_with_strategy plain 5 invoice ConflictResolutionStrategy.manual start).0
      ≡ err (ConflictError.manual_required 1))
    × (count_unresolved
          (resolve_with_strategy plain 5 invoice ConflictResolutionStrategy.manual start).1
        ≡ 1)
unfolding resolve_with_strategy count_unresolved
manual_stays_logged = (refl, refl)

chosen_by_hand :
    (summary (resolve_manually plain 6 1 ConflictWinner.local resolved).0
      ≡ some (1, ConflictWinner.local, "draft", "sent"))
    × ((resolve_manually plain 6 9 ConflictWinner.local resolved).0
        ≡ err (ConflictError.not_found 9))
unfolding resolve_conflict resolve_manually
chosen_by_hand = (refl, refl)

batch_is_resolved : count_unresolved (resolve_batch plain 5 (invoice ∷ᴸ bill ∷ᴸ []ᴸ) start).1 ≡ 0
unfolding resolve_batch count_unresolved
batch_is_resolved = refl

outcome-IsLog_example : IsLog (outcome plain (Call.batch 6 (invoice ∷ᴸ bill ∷ᴸ []ᴸ)) resolved)
outcome-IsLog_example =
    outcome-IsLog plain (Call.batch 6 (invoice ∷ᴸ bill ∷ᴸ []ᴸ)) resolved resolved-IsLog

invoice-IsReadable : IsReadable plain 6 invoice
invoice-IsReadable = record {
  local_depth = omega arith;
  local_floats = refl;
  remote_depth = omega arith;
  remote_floats = refl;
  local_year = refl;
  remote_year = refl;
  now_year = refl;
}

-- An entry of the invoice is there already.
log_conflict-get_conflict_example :
    (id : ℕ) × (e : ConflictLogEntry String) × ((log_conflict plain 6 invoice resolved).0 ≡ ok id)
    × (get_conflict plain id (log_conflict plain 6 invoice resolved).1 ≡ ok e)
    × Tells invoice ConflictResolutionStrategy.last_write_wins e
unfolding resolve_conflict log_conflict get_conflict
log_conflict-get_conflict_example =
    log_conflict-get_conflict plain 6 invoice "draft" "sent" refl refl resolved invoice-IsReadable
      resolved-IsLog

resolve_with_strategy-Promised_example :
    Promised ConflictResolutionStrategy.last_write_wins bill (record {
      conflict_id = 2;
      entity_type = "bill";
      entity_id = "8";
      winner = ConflictWinner.remote;
      winning_data = "paid";
      losing_data = "open";
      local_modified_at = 4;
      remote_modified_at = 4;
      resolved_at = 6;
      strategy = ConflictResolutionStrategy.last_write_wins;
    })
unfolding resolve_with_strategy resolve_conflict
resolve_with_strategy-Promised_example =
    resolve_with_strategy-Promised plain 6 bill ConflictResolutionStrategy.last_write_wins resolved
      (resolve_with_strategy plain 6 bill ConflictResolutionStrategy.last_write_wins resolved).1 _
      refl

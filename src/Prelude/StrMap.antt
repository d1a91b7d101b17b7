-- ===== src/Prelude/StrMap.antt =====
-- `HashMap<String, V>` of the standard library. The program never iterates over one.
use Prim.Native.String.{String}
use mathlib.Core.Path.{◌≡◌}
use mathlib.Core.List.{List, [], ◌∷◌}
use mathlib.Core.Option.{Option, none, some}
use native.Mathlib.Omega.{arith}
use text.Mathlib.Text.{◌==◌}
use text.Mathlib.TextEquality.{eq_iff}
use rich_aim_acct_inv.Prelude.Tests.{if◌then◌else◌}

abbrev pub StrMap {ℓ} : Type ℓ → Type ℓ
StrMap V = List (String × V)

module _ {ℓ} {V : Type ℓ} where
  -- `get`
  unfoldable pub get? : String → StrMap V → Option V
  get? k [] = none
  get? k ((j, v) ∷ m) = if k == j then some v else get? k m

  -- `insert`: replaces the value of a key that is there.
  unfoldable pub insert : String → V → StrMap V → StrMap V
  insert k v [] = (k, v) ∷ []
  insert k v ((j, w) ∷ m) = if k == j then (k, v) ∷ m else (j, w) ∷ insert k v m

  -- `remove`
  unfoldable pub remove : String → StrMap V → StrMap V
  remove k [] = []
  remove k ((j, w) ∷ m) = let rest = remove k m in if k == j then rest else (j, w) ∷ rest

  pub get?-insert :
      (j k : String) (v : V) (m : StrMap V)
      → get? j (insert k v m) ≡ (if k == j then some v else get? j m)
  unfolding get? insert
  get?-insert j k v [] = ground (arith, eq_iff j k, eq_iff k j)
  get?-insert j k v ((i, w) ∷ m) =
      ground
        (arith, eq_iff j k, eq_iff k j, eq_iff j i, eq_iff k i, eq_iff i j, get?-insert j k v m)

  pub get?-remove :
      (j k : String) (m : StrMap V) → get? j (remove k m) ≡ (if k == j then none else get? j m)
  unfolding get? remove
  get?-remove j k [] = ground (arith, eq_iff j k)
  get?-remove j k ((i, w) ∷ m) =
      ground (arith, eq_iff j k, eq_iff k j, eq_iff j i, eq_iff k i, get?-remove j k m)

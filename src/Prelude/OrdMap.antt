-- ===== src/Prelude/OrdMap.antt =====
-- `BTreeMap<Uuid, V>` of the standard library: the entries in the order of their keys. A `Uuid` is
-- a 128-bit number, which the program only compares.
use rich_aim_acct_inv.Prelude.Lists.{All}
use Prim.Native.Nat.{ℕ}
use mathlib.Core.Path.{◌≡◌, ◌∙◌, subst}
use mathlib.Core.Logic.{◌≢◌, inl, inr}
use mathlib.Core.List.{List, [], ◌∷◌}
use mathlib.Core.Option
use mathlib.Core.Option.{Option, none, some}
use native.Mathlib.Omega.{arith}
use rich_aim_acct_inv.Prelude.Tests.{ltb, ◌==◌, if◌then◌else◌, Bool-cases}

abbrev pub OrdMap {ℓ} : Type ℓ → Type ℓ
OrdMap V = List (ℕ × V)

module _ {ℓ} {V : Type ℓ} where
  -- `get`
  unfoldable pub get? : ℕ → OrdMap V → Option V
  get? k [] = none
  get? k ((j, v) ∷ m) = if k == j then some v else get? k m

  -- `insert`: replaces the value of a key that is there.
  unfoldable pub insert : ℕ → V → OrdMap V → OrdMap V
  insert k v [] = (k, v) ∷ []
  insert k v ((j, w) ∷ m) =
      if k == j then (k, v) ∷ m else if ltb k j then (k, v) ∷ (j, w) ∷ m else (j, w) ∷ insert k v m

  -- `remove`
  unfoldable pub remove : ℕ → OrdMap V → OrdMap V
  remove k [] = []
  remove k ((j, w) ∷ m) = let rest = remove k m in if k == j then rest else (j, w) ∷ rest

  -- `get_mut`, and a write through the reference
  unfoldable pub modify : ℕ → (V → V) → OrdMap V → OrdMap V
  modify k f [] = []
  modify k f ((j, w) ∷ m) = if k == j then (j, f w) ∷ m else (j, w) ∷ modify k f m

  -- `values`
  abbrev pub values : OrdMap V → List V
  values [] = []
  values ((j, w) ∷ m) = w ∷ values m

  pub get?-insert :
      (j k : ℕ) (v : V) (m : OrdMap V)
      → get? j (insert k v m) ≡ (if k == j then some v else get? j m)
  unfolding get? insert
  get?-insert j k v [] = ground arith
  get?-insert j k v ((i, w) ∷ m) = ground (arith, get?-insert j k v m)

  pub get?-modify :
      (j k : ℕ) (f : V → V) (m : OrdMap V)
      → get? j (modify k f m) ≡ (if k == j then Option.map f (get? j m) else get? j m)
  unfolding get? modify
  get?-modify j k f [] = ground arith
  get?-modify j k f ((i, w) ∷ m) = ground (arith, get?-modify j k f m)

  pub get?-remove :
      (j k : ℕ) (m : OrdMap V) → get? j (remove k m) ≡ (if k == j then none else get? j m)
  unfolding get? remove
  get?-remove j k [] = ground arith
  get?-remove j k ((i, w) ∷ m) = ground (arith, get?-remove j k m)

  pub get?-remove_ne : (j k : ℕ) (m : OrdMap V) → k ≢ j → get? j (remove k m) ≡ get? j m
  get?-remove_ne j k m h = get?-remove j k m ∙ ground arith

module _ {ℓ κ} {V : Type ℓ} (P : V → Type κ) where
  -- A predicate on all the values, kept by the operations.
  abbrev pub Every : OrdMap V → Type κ
  Every m = All P (values m)

  pub Every-insert : (k : ℕ) (v : V) (m : OrdMap V) → P v → Every m → Every (insert k v m)
  unfolding insert
  Every-insert k v [] h hs = (h, tt)
  Every-insert k v ((j, w) ∷ m) h hs = elim (Bool-cases (k == j)) [
    | inl same ↦ rw same (h, hs.1)
    | inr other ↦ elim (Bool-cases (ltb k j)) [
      | inl before ↦ rw (other, before) (h, hs)
      | inr after ↦ rw (other, after) (hs.0, Every-insert k v m h hs.1)
    ]
  ]

  pub Every-modify :
      (k : ℕ) (f : V → V) (m : OrdMap V)
      → ((v : V) → P v → P (f v))
      → Every m
      → Every (modify k f m)
  unfolding modify
  Every-modify k f [] h hs = tt
  Every-modify k f ((j, w) ∷ m) h hs = elim (Bool-cases (k == j)) [
    | inl same ↦ rw same (h w hs.0, hs.1)
    | inr other ↦ rw other (hs.0, Every-modify k f m h hs.1)
  ]

  pub Every-get? : (k : ℕ) (m : OrdMap V) (v : V) → Every m → get? k m ≡ some v → P v
  unfolding get?
  Every-get? k [] v hs e = ground arith
  Every-get? k ((j, w) ∷ m) v hs e = elim (Bool-cases (k == j)) [
    | inl same ↦ let found : w ≡ v = ground arith in subst P found hs.0
    | inr other ↦ Every-get? k m v hs.1 (ground arith)
  ]

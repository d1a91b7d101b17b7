-- ===== src/Encryption/Texts.antt =====
-- Texts as the numbers of their characters, with which the tests run.
use Prim.Native.Nat.{Ordering, compare}
use Prim.Native.Char.{Char, char, code, nul, IsLt}
use rich_aim_acct_inv.Prelude.{ℕ, ◌≡◌, refl, Option, none, some, String, List, [], ◌∷◌}

-- What Prim.Native.Char says of the three comparisons of a character's number.
abbrev BothLt : Ordering → Ordering → Type 0
BothLt Ordering.lt p = IsLt p
BothLt Ordering.eq p = ⊥
BothLt Ordering.gt p = ⊥

abbrev Scalar : Ordering → Ordering → Ordering → Type 0
Scalar Ordering.lt o p = Unit
Scalar Ordering.eq o p = BothLt o p
Scalar Ordering.gt o p = BothLt o p

abbrev both_lt? : (o p : Ordering) → Option (BothLt o p)
both_lt? Ordering.lt Ordering.lt = some tt
both_lt? Ordering.lt Ordering.eq = none
both_lt? Ordering.lt Ordering.gt = none
both_lt? Ordering.eq p = none
both_lt? Ordering.gt p = none

abbrev scalar? : (n o p : Ordering) → Option (Scalar n o p)
scalar? Ordering.lt o p = some tt
scalar? Ordering.eq o p = both_lt? o p
scalar? Ordering.gt o p = both_lt? o p

both_lt?-some : (o p : Ordering) (h : BothLt o p) → both_lt? o p ≡ some h
both_lt?-some Ordering.lt Ordering.lt h = refl
both_lt?-some Ordering.lt Ordering.eq h = absurd h
both_lt?-some Ordering.lt Ordering.gt h = absurd h
both_lt?-some Ordering.eq p h = absurd h
both_lt?-some Ordering.gt p h = absurd h

scalar?-some : (n o p : Ordering) (h : Scalar n o p) → scalar? n o p ≡ some h
scalar?-some Ordering.lt o p h = refl
scalar?-some Ordering.eq o p h = both_lt?-some o p h
scalar?-some Ordering.gt o p h = both_lt?-some o p h

-- The character with a number, or U+0000.
abbrev of_code : ℕ → Char
of_code n = elim (scalar? (compare n 55296) (compare 57343 n) (compare n 1114112)) [
  | some h ↦ char n h
  | none ↦ nul
]

of_code-code : (c : Char) → of_code (code c) ≡ c
of_code-code (char n h) =
    rw (scalar?-some (compare n 55296) (compare 57343 n) (compare n 1114112) h, of_code) refl

abbrev pub codes : String → List ℕ
codes String.[] = []
codes (String.◌∷◌ c s) = code c ∷ codes s

abbrev pub of_codes : List ℕ → String
of_codes [] = String.[]
of_codes (n ∷ ns) = String.◌∷◌ (of_code n) (of_codes ns)

pub of_codes-codes : (s : String) → of_codes (codes s) ≡ s
of_codes-codes String.[] = refl
of_codes-codes (String.◌∷◌ c s) = λ i. String.◌∷◌ (of_code-code c i) (of_codes-codes s i)

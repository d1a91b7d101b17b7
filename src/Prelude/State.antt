-- ===== src/Prelude/State.antt =====
-- A method on a shared object: state and `Result`. What was written before an error stays written.
use mathlib.Core.Path.{◌≡◌, ◌∙◌, ap, sym}
use mathlib.Core.Logic.{inl, inr}
use native.Mathlib.Omega.{arith}
use rich_aim_acct_inv.Prelude.Results.{Result, ok, err, Result-cases}

abbrev pub Action : Type 0 → Type 0 → Type 0 → Type 0
Action S E A = S → Result E A × S

infixl 5 ◌>>=◌ ◌>>◌
abbrev pub ◌>>=◌ : {S E A B : Type 0} → Action S E A → (A → Action S E B) → Action S E B
◌>>=◌ m f s = let (r, s') = m s in elim r [ ok a ↦ f a s' | err e ↦ (err e, s') ]

abbrev pub ◌>>◌ : {S E A B : Type 0} → Action S E A → Action S E B → Action S E B
m >> k = m >>= λ _. k

abbrev pub pure : {S E A : Type 0} → A → Action S E A
pure a s = (ok a, s)

abbrev pub throw : {S E A : Type 0} → E → Action S E A
throw e s = (err e, s)

abbrev pub gets : {S E A : Type 0} → (S → A) → Action S E A
gets f s = (ok (f s), s)

abbrev pub update : {S E : Type 0} → (S → S) → Action S E (Unit {0})
update f s = (ok tt, f s)

-- A check that reads the state.
abbrev pub check : {S E A : Type 0} → (S → Result E A) → Action S E A
check f s = (f s, s)

-- What follows an outcome.
abbrev pub continue_with : {S E A B : Type 0} → (A → Action S E B) → Result E A × S → Result E B × S
continue_with f w = elim w.0 [ ok a ↦ f a w.1 | err e ↦ (err e, w.1) ]

-- A step that succeeds, and one that fails.
pub after_ok :
    {S E A B : Type 0} (m : Action S E A) (f : A → Action S E B) (s s' : S) (a : A)
    → m s ≡ (ok a, s')
    → (m >>= f) s ≡ f a s'
after_ok m f s s' a h = ap (continue_with f) h

pub after_err :
    {S E A B : Type 0} (m : Action S E A) (f : A → Action S E B) (s s' : S) (e : E)
    → m s ≡ (err e, s')
    → (m >>= f) s ≡ (err e, s')
after_err m f s s' e h = ap (continue_with f) h

-- A chain that succeeds: its first step did, and the rest from there.
pub >>=-eq-ok :
    {S E A B : Type 0} (m : Action S E A) (f : A → Action S E B) (s s'' : S) (b : B)
    → (m >>= f) s ≡ (ok b, s'')
    → (a : A) × (s' : S) × (m s ≡ (ok a, s')) × (f a s' ≡ (ok b, s''))
>>=-eq-ok {S} {E} {A} {B} m f s s'' b h = elim (Result-cases (m s).0) [
  | inl (a, e) ↦
      let first : m s ≡ (ok a, (m s).1) = λ i. (e i, (m s).1) in
      (a, (m s).1, first, sym (after_ok m f s (m s).1 a first) ∙ h)
  | inr (x, e) ↦
      let first : m s ≡ (err x, (m s).1) = λ i. (e i, (m s).1) in
      let clash : ◌≡◌ {A = Result E B × S} (err x, (m s).1) (ok b, s'') =
        sym (after_err m f s (m s).1 x first) ∙ h in
      let no_way : ⊥ = ground arith in absurd no_way
]

-- ===== src/Taxes/Maps.antt =====
-- Maps that agree: jurisdictions by id, and ids by code
-- (RichdaleAccounting/nexus-core/src/accounting/tax.rs).
use text.Mathlib.TextEquality.{eq_iff}
use rich_aim_acct_inv.Prelude.{
  ◌≡◌, ◌∙◌, ◌==◌, none, some, String, arith, Bool-cases, inl, inr, str_eq, sym,
}
use rich_aim_acct_inv.Prelude.OrdMap
use rich_aim_acct_inv.Prelude.StrMap
use rich_aim_acct_inv.Financial.{Uuid}
use rich_aim_acct_inv.Taxes.{TaxJurisdiction}

abbrev pub Jurisdictions : Type 0 → Type 0
Jurisdictions M = OrdMap.OrdMap (TaxJurisdiction M)

-- The index leads from a code to the jurisdiction that has it, and to each one from its code.
pub record IsIndex {M : Type 0} (js : Jurisdictions M) (codes : StrMap.StrMap Uuid) : Type 0 where
  pub found :
      (code : String) (id : Uuid)
      → StrMap.get? code codes ≡ some id
      → (j : TaxJurisdiction M) × (OrdMap.get? id js ≡ some j) × (j.code ≡ code)
  pub listed :
      (id : Uuid) (j : TaxJurisdiction M)
      → OrdMap.get? id js ≡ some j
      → (StrMap.get? j.code codes ≡ some id) × (j.id ≡ id)

module _ {M : Type 0} (js : Jurisdictions M) (codes : StrMap.StrMap Uuid)
    (v : IsIndex js codes) where
  pub inserted-IsIndex :
      (id : Uuid) (j : TaxJurisdiction M)
      → j.id ≡ id
      → OrdMap.get? id js ≡ none
      → StrMap.get? j.code codes ≡ none
      → IsIndex (OrdMap.insert id j js) (StrMap.insert j.code id codes)
  inserted-IsIndex id j own new unused = record {
    found = λ code k h. elim (Bool-cases (str_eq j.code code)) [
      | inl hit ↦ (
        j,
        ground (arith, StrMap.get?-insert code j.code id codes, OrdMap.get?-insert k id j js),
        (eq_iff j.code code).0 hit,
      )
      | inr miss ↦
          let (e, there, its) =
            v.found code k (ground (arith, StrMap.get?-insert code j.code id codes)) in
          (e, ground (arith, OrdMap.get?-insert k id j js), its)
    ];
    listed = λ k e h. ground (
      arith,
      v.listed k e,
      StrMap.get?-insert e.code j.code id codes,
      OrdMap.get?-insert k id j js,
      eq_iff j.code e.code,
    );
  }

  pub removed-IsIndex :
      (id : Uuid) (e : TaxJurisdiction M)
      → OrdMap.get? id js ≡ some e
      → IsIndex (OrdMap.remove id js) (StrMap.remove e.code codes)
  removed-IsIndex id e there = record {
    found = λ code k h.
        let (j, at, its) = v.found code k (ground (arith, StrMap.get?-remove code e.code codes)) in
        (
          j,
          ground (
            arith,
            OrdMap.get?-remove k id js,
            StrMap.get?-remove code e.code codes,
            eq_iff e.code code,
          ),
          its,
        );
    listed = λ k j h. ground (
      arith,
      v.listed k j,
      v.listed id e,
      OrdMap.get?-remove k id js,
      StrMap.get?-remove j.code e.code codes,
      eq_iff e.code j.code,
    );
  }

  pub replaced-IsIndex :
      (id : Uuid) (e j : TaxJurisdiction M)
      → OrdMap.get? id js ≡ some e
      → j.id ≡ id
      → e.code ≡ j.code
      → IsIndex (OrdMap.insert id j js) codes
  replaced-IsIndex id e j there own same = record {
    found = λ code k h.
        let (x, at, its) = v.found code k h in
        elim (Bool-cases (id == k)) [
          | inl hit ↦
              (j, ground (arith, OrdMap.get?-insert k id j js), ground (arith, v.listed id e))
          | inr miss ↦ (x, ground (arith, OrdMap.get?-insert k id j js), its)
        ];
    listed = λ k x h. ground (arith, v.listed k x, v.listed id e, OrdMap.get?-insert k id j js);
  }

  -- Only what the map answers counts.
  same-IsIndex :
      (js' : Jurisdictions M)
      → ((k : Uuid) → OrdMap.get? k js' ≡ OrdMap.get? k js)
      → IsIndex js' codes
  same-IsIndex js' same = record {
    found = λ code k h. let (x, at, its) = v.found code k h in (x, same k ∙ at, its);
    listed = λ k x h. v.listed k x (sym (same k) ∙ h);
  }

get?-insert-remove :
    {V : Type 0} (k id : Uuid) (x : V) (m : OrdMap.OrdMap V)
    → OrdMap.get? k (OrdMap.insert id x m) ≡ OrdMap.get? k (OrdMap.insert id x (OrdMap.remove id m))
get?-insert-remove k id x m = ground (
  arith,
  OrdMap.get?-insert k id x m,
  OrdMap.get?-insert k id x (OrdMap.remove id m),
  OrdMap.get?-remove k id m,
)

module _ {M : Type 0} (js : Jurisdictions M) (codes : StrMap.StrMap Uuid)
    (v : IsIndex js codes) where
  -- A jurisdiction that gets a new code.
  pub recoded-IsIndex :
      (id : Uuid) (e j : TaxJurisdiction M)
      → OrdMap.get? id js ≡ some e
      → j.id ≡ id
      → StrMap.get? j.code codes ≡ none
      → IsIndex (OrdMap.insert id j js) (StrMap.insert j.code id (StrMap.remove e.code codes))
  recoded-IsIndex id e j there own unused =
      same-IsIndex _ _
        (inserted-IsIndex _ _ (removed-IsIndex js codes v id e there) id j own
          (ground (arith, OrdMap.get?-remove id id js))
          (ground (arith, StrMap.get?-remove j.code e.code codes)))
        (OrdMap.insert id j js) (λ k. get?-insert-remove k id j js)

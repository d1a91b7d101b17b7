-- ===== src/Taxes/Index.antt =====
-- The index of jurisdictions by code against the jurisdictions
-- (RichdaleAccounting/nexus-core/src/accounting/tax.rs).
use text.Mathlib.TextEquality.{eq_iff}
use rich_aim_acct_inv.Prelude.{
  ◌≡◌, ◌≢◌, ◌∙◌, ◌==◌, ◌↔◌, true, none, some, String, arith, Bool-cases, inl, inr, Option-cases,
  str_eq, eq_self, refl,
}
use rich_aim_acct_inv.Prelude.OrdMap
use rich_aim_acct_inv.Prelude.StrMap
use rich_aim_acct_inv.Financial.{Uuid}
use rich_aim_acct_inv.Ledger.{Outside}
use rich_aim_acct_inv.Taxes.{
  TaxJurisdiction, TaxCalculator, create_jurisdiction, update_jurisdiction, delete_jurisdiction,
  get_jurisdiction, get_jurisdiction_by_code,
}
use rich_aim_acct_inv.Taxes.Maps.{
  IsIndex, inserted-IsIndex, removed-IsIndex, replaced-IsIndex, recoded-IsIndex,
}

-- The index of a calculator agrees with its jurisdictions.
abbrev pub Indexed : {M : Type 0} → TaxCalculator M → Type 0
Indexed c = IsIndex c.jurisdictions c.jurisdictions_by_code

-- A call that changes jurisdictions.
pub data Call (M : Type 0) : Type 0 where
  create : Outside → TaxJurisdiction M → Call M
  update : Outside → Uuid → TaxJurisdiction M → Call M
  delete : Uuid → Call M

module _ {M : Type 0} where
  -- A jurisdiction is created under an unused id, and updated only if it is there.
  abbrev pub Allowed : Call M → TaxCalculator M → Type 0
  Allowed (create o j) c = OrdMap.get? j.id c.jurisdictions ≡ none
  Allowed (update o id j) c = OrdMap.get? id c.jurisdictions ≢ none
  Allowed (delete id) c = Unit

  -- The state after a call.
  abbrev pub outcome : Call M → TaxCalculator M → TaxCalculator M
  outcome (create o j) c = (create_jurisdiction o j c).1
  outcome (update o id j) c = (update_jurisdiction o id j c).1
  outcome (delete id) c = (delete_jurisdiction id c).1

  create_jurisdiction-Indexed :
      (o : Outside) (j : TaxJurisdiction M) (c : TaxCalculator M)
      → OrdMap.get? j.id c.jurisdictions ≡ none
      → Indexed c
      → Indexed (create_jurisdiction o j c).1
  unfolding create_jurisdiction
  create_jurisdiction-Indexed o j c new v =
      elim (Option-cases (StrMap.get? j.code c.jurisdictions_by_code)) [
        | inl unused ↦
            let j' : TaxJurisdiction M = record j { created_at = o.now; updated_at = o.now } in
            rw unused (inserted-IsIndex _ _ v j.id j' refl new unused)
        | inr (id, used) ↦ rw used v
      ]

  update_jurisdiction-Indexed :
      (o : Outside) (id : Uuid) (j e : TaxJurisdiction M) (c : TaxCalculator M)
      → OrdMap.get? id c.jurisdictions ≡ some e
      → Indexed c
      → Indexed (update_jurisdiction o id j c).1
  unfolding update_jurisdiction
  update_jurisdiction-Indexed o id j e c there v =
      let j' : TaxJurisdiction M = record j { updated_at = o.now } in
      elim (Bool-cases (j.id == id)) [
        | inr other ↦ rw other v
        | inl own ↦
            let own' : j.id ≡ id = ground arith in
            elim (Bool-cases (str_eq e.code j.code)) [
              | inl same ↦
                  rw (own, there, same)
                    (replaced-IsIndex _ _ v id e j' there own' ((eq_iff e.code j.code).0 same))
              | inr differs ↦ elim (Option-cases (StrMap.get? j.code c.jurisdictions_by_code)) [
                | inl unused ↦
                    rw (own, there, differs, unused)
                      (recoded-IsIndex _ _ v id e j' there own' unused)
                | inr (k, used) ↦ rw (own, there, differs, used) v
              ]
            ]
      ]

  delete_jurisdiction-Indexed :
      (id : Uuid) (c : TaxCalculator M) → Indexed c → Indexed (delete_jurisdiction id c).1
  unfolding delete_jurisdiction
  delete_jurisdiction-Indexed id c v = elim (Option-cases (OrdMap.get? id c.jurisdictions)) [
    | inl missing ↦ rw (missing, delete_jurisdiction) v
    | inr (e, there) ↦ rw (there, delete_jurisdiction) (removed-IsIndex _ _ v id e there)
  ]

  -- Creating, updating and deleting jurisdictions, successfully or not, keeps the index: each code
  -- in it leads to a stored jurisdiction with that code, and each stored one is listed under its
  -- code and stored under its id. This asks that a jurisdiction be created under an unused id, and
  -- updated only if it is stored.
  pub outcome-Indexed :
      (call : Call M) (c : TaxCalculator M) → Allowed call c → Indexed c → Indexed (outcome call c)
  outcome-Indexed (create o j) c new v = create_jurisdiction-Indexed o j c new v
  outcome-Indexed (update o id j) c stored v =
      elim (Option-cases (OrdMap.get? id c.jurisdictions)) [
        | inl missing ↦ absurd (stored missing)
        | inr (e, there) ↦ update_jurisdiction-Indexed o id j e c there v
      ]
  outcome-Indexed (delete id) c _ v = delete_jurisdiction-Indexed id c v

  -- With the index kept, looking a jurisdiction up by its code finds it, and what is found has the
  -- code and is stored.
  get_jurisdiction_by_code_iff :
      (code : String) (j : TaxJurisdiction M) (c : TaxCalculator M)
      → Indexed c
      → (get_jurisdiction_by_code code c ≡ some j)
        ↔ ((OrdMap.get? j.id c.jurisdictions ≡ some j) × (j.code ≡ code))
  unfolding get_jurisdiction_by_code
  get_jurisdiction_by_code_iff code j c v = (
    λ h. elim (Option-cases (StrMap.get? code c.jurisdictions_by_code)) [
      | inl missing ↦ ground arith
      | inr (id, at) ↦ let (e, there, its) = v.found code id at in ground (arith, v.listed id j)
    ],
    λ h. ground (arith, v.listed j.id j h.0),
  )

  -- Updating a jurisdiction that is not stored, under a code that is not in use, stores it, but
  -- looking it up by its code does not find it.
  update_jurisdiction_unlisted :
      (o : Outside) (id : Uuid) (j : TaxJurisdiction M) (c : TaxCalculator M)
      → OrdMap.get? id c.jurisdictions ≡ none
      → j.id ≡ id
      → StrMap.get? j.code c.jurisdictions_by_code ≡ none
      → (get_jurisdiction id (update_jurisdiction o id j c).1
          ≡ some (record j { updated_at = o.now }))
        × (get_jurisdiction_by_code j.code (update_jurisdiction o id j c).1 ≡ none)
  unfolding update_jurisdiction get_jurisdiction get_jurisdiction_by_code
  update_jurisdiction_unlisted o id j c missing own unused =
      let j' : TaxJurisdiction M = record j { updated_at = o.now } in
      let own' : (j.id == id) ≡ true = ground arith in
      rw (own', missing)
        (
          OrdMap.get?-insert id id j' c.jurisdictions ∙ rw (eq_self id) refl,
          rw (unused, get_jurisdiction_by_code) refl,
        )

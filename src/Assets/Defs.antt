-- ===== src/Assets/Defs.antt =====
-- Fixed assets and what they lose each month (RichdaleAccounting/nexus-core/src/accounting/assets.rs).
use rich_aim_acct_inv.Prelude.{
  ℕ, ◌==◌, Bool, Option, none, List, [], ◌∷◌, ◌++◌, String, if◌then◌else◌,
}
use rich_aim_acct_inv.Prelude.State.{Action}
use rich_aim_acct_inv.Money.{Division, Decimal, dec_le, dec_lt}
use rich_aim_acct_inv.Financial.{Uuid, DateTime, NaiveDate}
use rich_aim_acct_inv.Ledger.{Ledger, LedgerError}

-- An id and a ledger's error stand for the text that the message prints of them. The source's
-- `LedgerError(String)` is only made of a ledger's error.
pub data AssetError : Type 0 where
  not_found : Uuid → AssetError
  invalid_state depreciation_error : String → AssetError
  ledger_error : LedgerError → AssetError
  account_not_found other : String → AssetError

pub data DepreciationMethod : Type 0 where
  straight_line double_declining : DepreciationMethod

pub record FixedAsset (M : Type 0) : Type 0 where
  pub id : Uuid
  pub name : String
  pub description : String
  pub account_id : Uuid
  pub cost : M
  pub salvage_value : M
  pub useful_life_months : ℕ
  pub depreciation_method : DepreciationMethod
  pub acquisition_date : NaiveDate
  pub disposed_date : Option NaiveDate
  pub accumulated_depreciation : M
  pub created_at : DateTime
  pub updated_at : DateTime

pub record AssetManager (M : Type 0) : Type 0 where
  pub assets : List (FixedAsset M)

-- What the calls on assets change: the manager, and the ledger that they are given.
pub record AssetBooks (M : Type 0) : Type 0 where
  pub manager : AssetManager M
  pub ledger : Ledger M

abbrev pub Method : Type 0 → Type 0 → Type 0
Method M A = Action (AssetBooks M) AssetError A

-- What the texts and the dates of the postings are made with.
pub record Printing : Type 0 where
  pub year_month : NaiveDate → String
  pub year_month_digits : NaiveDate → String
  pub month_name : NaiveDate → String
  pub noon : NaiveDate → DateTime
  pub short_id : Uuid → String

-- `AssetManager::new`
abbrev pub new_manager : {M : Type 0} → AssetManager M
new_manager = record { assets = [] }

-- `AssetManager::add_asset` and `list_assets`
unfoldable pub add_asset :
    {M : Type 0} → FixedAsset M → AssetManager M → FixedAsset M × AssetManager M
add_asset a m = (a, record m { assets = m.assets ++ a ∷ [] })

unfoldable pub list_assets : {M : Type 0} → AssetManager M → List (FixedAsset M)
list_assets m = m.assets

module _ {M : Type 0} ⦃d : Decimal M⦄ where
  open d use {dec_0, sub, mul}

  -- `FixedAsset::new`
  unfoldable pub new_asset : Uuid → DateTime → String → Uuid → M → M → ℕ → NaiveDate → FixedAsset M
  new_asset id now name account_id cost salvage_value useful_life_months acquisition_date = record {
    id = id;
    name = name;
    description = "";
    account_id = account_id;
    cost = cost;
    salvage_value = salvage_value;
    useful_life_months = useful_life_months;
    depreciation_method = DepreciationMethod.straight_line;
    acquisition_date = acquisition_date;
    disposed_date = none;
    accumulated_depreciation = dec_0;
    created_at = now;
    updated_at = now;
  }

  abbrev pub book_value : FixedAsset M → M
  book_value a = sub a.cost a.accumulated_depreciation

  -- `FixedAsset::is_fully_depreciated`
  unfoldable pub is_fully_depreciated : FixedAsset M → Bool
  is_fully_depreciated a = dec_le (sub a.cost a.salvage_value) a.accumulated_depreciation

  -- A declining balance stops at the salvage value.
  abbrev pub not_below_salvage : FixedAsset M → M → M
  not_below_salvage a depreciation =
      if dec_lt (sub (book_value a) depreciation) a.salvage_value
      then sub (book_value a) a.salvage_value
      else depreciation

  module _ ⦃q : Division M⦄ where
    open q use {div, from}

    abbrev pub depreciation_by : DepreciationMethod → FixedAsset M → M
    depreciation_by DepreciationMethod.straight_line a =
        if a.useful_life_months == 0
        then dec_0
        else div (sub a.cost a.salvage_value) (from a.useful_life_months)
    depreciation_by DepreciationMethod.double_declining a =
        if a.useful_life_months == 0
        then dec_0
        else not_below_salvage a (mul (book_value a) (div (from 2) (from a.useful_life_months)))

    -- `FixedAsset::monthly_depreciation`
    unfoldable pub monthly_depreciation : FixedAsset M → M
    monthly_depreciation a = depreciation_by a.depreciation_method a

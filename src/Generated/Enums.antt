-- ===== src/Generated/Enums.antt =====
-- crates/futu/src/generated: the enumerations, each in a file of its name, with the names that
-- `prost` writes beside them.
pub mod RetType
pub mod PacketEncAlgo
pub mod ProtoFmt
pub mod UserAttribution
pub mod ProgramStatusType
pub mod Session
pub mod QotMarket
pub mod SecurityType
pub mod PlateSetType
pub mod WarrantType
pub mod OptionType
pub mod IndexOptionType
pub mod OptionAreaType
pub mod QotMarketState
pub mod TradeDateMarket
pub mod TradeDateType
pub mod RehabType
pub mod KlType
pub mod KlFields
pub mod SubType
pub mod TickerDirection
pub mod TickerType
pub mod DarkStatus
pub mod SecurityStatus
pub mod HolderCategory
pub mod PushDataType
pub mod SortField
pub mod Issuer
pub mod IpoPeriod
pub mod PriceType
pub mod WarrantStatus
pub mod CompanyAct
pub mod QotRight
pub mod PriceReminderType
pub mod PriceReminderFreq
pub mod PriceReminderMarketStatus
pub mod AssetClass
pub mod ExpirationCycle
pub mod OptionStandardType
pub mod OptionSettlementMode
pub mod ExchType
pub mod PeriodType
pub mod TrdEnv
pub mod TrdCategory
pub mod TrdMarket
pub mod TrdSecMarket
pub mod TrdSide
pub mod OrderType
pub mod TrailType
pub mod OrderStatus
pub mod OrderFillStatus
pub mod PositionSide
pub mod ModifyOrderOp
pub mod TrdAccType
pub mod TrdAccStatus
pub mod Currency
pub mod CltRiskLevel
pub mod TimeInForce
pub mod SecurityFirm
pub mod SimAccType
pub mod CltRiskStatus
pub mod DtStatus
pub mod Names
use Prim.Native.String.{String}
use mathlib.Core.Option.{some-injective}
use text.Mathlib.Text.{◌==◌}
use text.Mathlib.TextEquality.{eq_iff}
use nautilus_futu.Prelude.{
  ◌≡◌, refl, sym, ap, ◌∙◌, List, [], ◌∷◌, Bool, true, false, ◌&&◌, Option, none, some,
  if◌then◌else◌,
}

and_both : (x y : Bool) → (x && y) ≡ true → (x ≡ true) × (y ≡ true)
and_both true true e = (refl, refl)
and_both true false e = cc
and_both false y e = cc

module _ {A : Type 0} where
  -- `match value`, the arms in order, with `_ => None` at the end.
  unfoldable pub match_name : String → List (String × A) → Option A
  match_name value [] = none
  match_name value ((name, a) ∷ arms) =
      let rest = match_name value arms in if value == name then some a else rest

  -- Every variant is read from the name that it writes, and from no other.
  unfoldable pub Exact : (A → String) → (String → Option A) → Type 0
  Exact as_str_name from_str_name =
      ((a : A) → from_str_name (as_str_name a) ≡ some a)
      × ((value : String) (a : A) → from_str_name value ≡ some a → as_str_name a ≡ value)

  -- Each arm has the name of its variant.
  abbrev pub names_fit : (A → String) → List (String × A) → Bool
  names_fit as_str_name [] = true
  names_fit as_str_name ((name, a) ∷ arms) = (as_str_name a == name) && names_fit as_str_name arms

  pub match_name_sound :
      (as_str_name : A → String) (arms : List (String × A))
      → names_fit as_str_name arms ≡ true
      → (value : String) (a : A) → match_name value arms ≡ some a
      → as_str_name a ≡ value
  unfolding match_name
  match_name_sound as_str_name [] fit value a e = cc
  match_name_sound as_str_name ((name, b) ∷ arms) fit value a e =
      let (here, there) = and_both (as_str_name b == name) (names_fit as_str_name arms) fit in
      let later = match_name_sound as_str_name arms there value a in
      by_test (value == name) refl here later e
    where
      by_test :
          (c : Bool)
          → (value == name) ≡ c
          → (as_str_name b == name) ≡ true
          → (match_name value arms ≡ some a → as_str_name a ≡ value)
          → (if c then some b else match_name value arms) ≡ some a
          → as_str_name a ≡ value
      by_test true s here later e =
          ap as_str_name (sym (some-injective b a e))
          ∙ (eq_iff (as_str_name b) name).0 here
          ∙ sym ((eq_iff value name).0 s)
      by_test false s here later e = later e

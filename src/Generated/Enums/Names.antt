-- ===== src/Generated/Enums/Names.antt =====
-- The names of the enumerations of crates/futu/src/generated.
use nautilus_futu.Generated.Enums.RetType
use nautilus_futu.Generated.Enums.PacketEncAlgo
use nautilus_futu.Generated.Enums.ProtoFmt
use nautilus_futu.Generated.Enums.UserAttribution
use nautilus_futu.Generated.Enums.ProgramStatusType
use nautilus_futu.Generated.Enums.Session
use nautilus_futu.Generated.Enums.QotMarket
use nautilus_futu.Generated.Enums.SecurityType
use nautilus_futu.Generated.Enums.PlateSetType
use nautilus_futu.Generated.Enums.WarrantType
use nautilus_futu.Generated.Enums.OptionType
use nautilus_futu.Generated.Enums.IndexOptionType
use nautilus_futu.Generated.Enums.OptionAreaType
use nautilus_futu.Generated.Enums.QotMarketState
use nautilus_futu.Generated.Enums.TradeDateMarket
use nautilus_futu.Generated.Enums.TradeDateType
use nautilus_futu.Generated.Enums.RehabType
use nautilus_futu.Generated.Enums.KlType
use nautilus_futu.Generated.Enums.KlFields
use nautilus_futu.Generated.Enums.SubType
use nautilus_futu.Generated.Enums.TickerDirection
use nautilus_futu.Generated.Enums.TickerType
use nautilus_futu.Generated.Enums.DarkStatus
use nautilus_futu.Generated.Enums.SecurityStatus
use nautilus_futu.Generated.Enums.HolderCategory
use nautilus_futu.Generated.Enums.PushDataType
use nautilus_futu.Generated.Enums.SortField
use nautilus_futu.Generated.Enums.Issuer
use nautilus_futu.Generated.Enums.IpoPeriod
use nautilus_futu.Generated.Enums.PriceType
use nautilus_futu.Generated.Enums.WarrantStatus
use nautilus_futu.Generated.Enums.CompanyAct
use nautilus_futu.Generated.Enums.QotRight
use nautilus_futu.Generated.Enums.PriceReminderType
use nautilus_futu.Generated.Enums.PriceReminderFreq
use nautilus_futu.Generated.Enums.PriceReminderMarketStatus
use nautilus_futu.Generated.Enums.AssetClass
use nautilus_futu.Generated.Enums.ExpirationCycle
use nautilus_futu.Generated.Enums.OptionStandardType
use nautilus_futu.Generated.Enums.OptionSettlementMode
use nautilus_futu.Generated.Enums.ExchType
use nautilus_futu.Generated.Enums.PeriodType
use nautilus_futu.Generated.Enums.TrdEnv
use nautilus_futu.Generated.Enums.TrdCategory
use nautilus_futu.Generated.Enums.TrdMarket
use nautilus_futu.Generated.Enums.TrdSecMarket
use nautilus_futu.Generated.Enums.TrdSide
use nautilus_futu.Generated.Enums.OrderType
use nautilus_futu.Generated.Enums.TrailType
use nautilus_futu.Generated.Enums.OrderStatus
use nautilus_futu.Generated.Enums.OrderFillStatus
use nautilus_futu.Generated.Enums.PositionSide
use nautilus_futu.Generated.Enums.ModifyOrderOp
use nautilus_futu.Generated.Enums.TrdAccType
use nautilus_futu.Generated.Enums.TrdAccStatus
use nautilus_futu.Generated.Enums.Currency
use nautilus_futu.Generated.Enums.CltRiskLevel
use nautilus_futu.Generated.Enums.TimeInForce
use nautilus_futu.Generated.Enums.SecurityFirm
use nautilus_futu.Generated.Enums.SimAccType
use nautilus_futu.Generated.Enums.CltRiskStatus
use nautilus_futu.Generated.Enums.DtStatus
use nautilus_futu.Generated.Enums.{Exact}

-- In each of the 62 enumerations of the generated code, from_str_name reads every variant back from
-- the name that as_str_name writes, and accepts no other name.
enumerations-Exact :
    Exact RetType.as_str_name RetType.from_str_name
    × Exact PacketEncAlgo.as_str_name PacketEncAlgo.from_str_name
    × Exact ProtoFmt.as_str_name ProtoFmt.from_str_name
    × Exact UserAttribution.as_str_name UserAttribution.from_str_name
    × Exact ProgramStatusType.as_str_name ProgramStatusType.from_str_name
    × Exact Session.as_str_name Session.from_str_name
    × Exact QotMarket.as_str_name QotMarket.from_str_name
    × Exact SecurityType.as_str_name SecurityType.from_str_name
    × Exact PlateSetType.as_str_name PlateSetType.from_str_name
    × Exact WarrantType.as_str_name WarrantType.from_str_name
    × Exact OptionType.as_str_name OptionType.from_str_name
    × Exact IndexOptionType.as_str_name IndexOptionType.from_str_name
    × Exact OptionAreaType.as_str_name OptionAreaType.from_str_name
    × Exact QotMarketState.as_str_name QotMarketState.from_str_name
    × Exact TradeDateMarket.as_str_name TradeDateMarket.from_str_name
    × Exact TradeDateType.as_str_name TradeDateType.from_str_name
    × Exact RehabType.as_str_name RehabType.from_str_name
    × Exact KlType.as_str_name KlType.from_str_name
    × Exact KlFields.as_str_name KlFields.from_str_name
    × Exact SubType.as_str_name SubType.from_str_name
    × Exact TickerDirection.as_str_name TickerDirection.from_str_name
    × Exact TickerType.as_str_name TickerType.from_str_name
    × Exact DarkStatus.as_str_name DarkStatus.from_str_name
    × Exact SecurityStatus.as_str_name SecurityStatus.from_str_name
    × Exact HolderCategory.as_str_name HolderCategory.from_str_name
    × Exact PushDataType.as_str_name PushDataType.from_str_name
    × Exact SortField.as_str_name SortField.from_str_name
    × Exact Issuer.as_str_name Issuer.from_str_name
    × Exact IpoPeriod.as_str_name IpoPeriod.from_str_name
    × Exact PriceType.as_str_name PriceType.from_str_name
    × Exact WarrantStatus.as_str_name WarrantStatus.from_str_name
    × Exact CompanyAct.as_str_name CompanyAct.from_str_name
    × Exact QotRight.as_str_name QotRight.from_str_name
    × Exact PriceReminderType.as_str_name PriceReminderType.from_str_name
    × Exact PriceReminderFreq.as_str_name PriceReminderFreq.from_str_name
    × Exact PriceReminderMarketStatus.as_str_name PriceReminderMarketStatus.from_str_name
    × Exact AssetClass.as_str_name AssetClass.from_str_name
    × Exact ExpirationCycle.as_str_name ExpirationCycle.from_str_name
    × Exact OptionStandardType.as_str_name OptionStandardType.from_str_name
    × Exact OptionSettlementMode.as_str_name OptionSettlementMode.from_str_name
    × Exact ExchType.as_str_name ExchType.from_str_name
    × Exact PeriodType.as_str_name PeriodType.from_str_name
    × Exact TrdEnv.as_str_name TrdEnv.from_str_name
    × Exact TrdCategory.as_str_name TrdCategory.from_str_name
    × Exact TrdMarket.as_str_name TrdMarket.from_str_name
    × Exact TrdSecMarket.as_str_name TrdSecMarket.from_str_name
    × Exact TrdSide.as_str_name TrdSide.from_str_name
    × Exact OrderType.as_str_name OrderType.from_str_name
    × Exact TrailType.as_str_name TrailType.from_str_name
    × Exact OrderStatus.as_str_name OrderStatus.from_str_name
    × Exact OrderFillStatus.as_str_name OrderFillStatus.from_str_name
    × Exact PositionSide.as_str_name PositionSide.from_str_name
    × Exact ModifyOrderOp.as_str_name ModifyOrderOp.from_str_name
    × Exact TrdAccType.as_str_name TrdAccType.from_str_name
    × Exact TrdAccStatus.as_str_name TrdAccStatus.from_str_name
    × Exact Currency.as_str_name Currency.from_str_name
    × Exact CltRiskLevel.as_str_name CltRiskLevel.from_str_name
    × Exact TimeInForce.as_str_name TimeInForce.from_str_name
    × Exact SecurityFirm.as_str_name SecurityFirm.from_str_name
    × Exact SimAccType.as_str_name SimAccType.from_str_name
    × Exact CltRiskStatus.as_str_name CltRiskStatus.from_str_name
    × Exact DtStatus.as_str_name DtStatus.from_str_name
enumerations-Exact = (
  RetType.exact, PacketEncAlgo.exact, ProtoFmt.exact, UserAttribution.exact,
  ProgramStatusType.exact, Session.exact, QotMarket.exact, SecurityType.exact, PlateSetType.exact,
  WarrantType.exact, OptionType.exact, IndexOptionType.exact, OptionAreaType.exact,
  QotMarketState.exact, TradeDateMarket.exact, TradeDateType.exact, RehabType.exact, KlType.exact,
  KlFields.exact, SubType.exact, TickerDirection.exact, TickerType.exact, DarkStatus.exact,
  SecurityStatus.exact, HolderCategory.exact, PushDataType.exact, SortField.exact, Issuer.exact,
  IpoPeriod.exact, PriceType.exact, WarrantStatus.exact, CompanyAct.exact, QotRight.exact,
  PriceReminderType.exact, PriceReminderFreq.exact, PriceReminderMarketStatus.exact,
  AssetClass.exact, ExpirationCycle.exact, OptionStandardType.exact, OptionSettlementMode.exact,
  ExchType.exact, PeriodType.exact, TrdEnv.exact, TrdCategory.exact, TrdMarket.exact,
  TrdSecMarket.exact, TrdSide.exact, OrderType.exact, TrailType.exact, OrderStatus.exact,
  OrderFillStatus.exact, PositionSide.exact, ModifyOrderOp.exact, TrdAccType.exact,
  TrdAccStatus.exact, Currency.exact, CltRiskLevel.exact, TimeInForce.exact, SecurityFirm.exact,
  SimAccType.exact, CltRiskStatus.exact, DtStatus.exact,
)

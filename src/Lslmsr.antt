-- ===== src/Lslmsr.antt =====
-- frontend/seer/src/lib/lslmsr/lslmsr.ts and math_util.ts: the market maker's prices and quotes. What
-- throws is `thrown`.
pub mod Bisect
pub mod Shares
pub mod Sort
pub mod Prices
pub mod MarketPrices
pub mod KeptOutcomes
pub mod Quotes
pub mod SpendQuote
pub mod CashoutQuote
mod Tests

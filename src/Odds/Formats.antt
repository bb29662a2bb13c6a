-- ===== src/Odds/Formats.antt =====
-- `OddsFormat` of frontend/seer/src/lib/odds.ts.
pub data OddsFormat : Type 0 where
  decimal american fractional percent : OddsFormat

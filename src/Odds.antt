-- ===== src/Odds.antt =====
-- frontend/seer/src/lib/odds.ts and the odds widgets that show what it prints.
pub mod Formats
pub mod Parts
pub mod Decimals
pub mod Arrow
pub mod Widgets
pub mod Fractions
mod Tests

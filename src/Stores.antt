-- ===== src/Stores.antt =====
-- frontend/seer/src/lib/stores/: the zustand stores, as records and functions that return the new
-- state. BetsLive is the table in ui/bet/bets_live that shows the one of Bets.
pub mod Bets
pub mod BetsLive
pub mod Chats
pub mod Panels
mod Tests

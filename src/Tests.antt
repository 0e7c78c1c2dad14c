-- ===== src/Tests.antt =====
-- The theorems at concrete boards, moves and games.
pub mod Data
mod Boards
mod Words
mod Games
mod More
mod Magic
mod Fen
mod Cache
mod Options
mod Uci

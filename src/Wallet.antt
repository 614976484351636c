-- ===== src/Wallet.antt =====
-- The wallet service: internal/wallet and its tables.
pub mod Tables
pub mod Repository
pub mod Service
pub mod Http
pub mod Subscriber
pub mod Balances
pub mod Transfer
pub mod Statements
pub mod Conservation
pub mod Funds
pub mod Progress
pub mod Opening
pub mod Owners
pub mod Handling
pub mod Moves
pub mod Ledger
mod Tests

-- ===== src/Client.antt =====
-- client-sdk/src/client and the data of interfaces/src/data that it works on.
pub mod Balances
pub mod Strategy
pub mod Fetch
pub mod FeePayment
pub mod Mining
mod Examples

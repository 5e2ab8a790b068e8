-- ===== src/Tests.antt =====
-- The theorems of the library at concrete inputs.
mod Groups
mod Driver
mod Second
mod Cards
mod Signals
mod Deliveries
mod Sends

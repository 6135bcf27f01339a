-- ===== src/Tests.antt =====
-- The theorems at concrete inputs, and runs of the code on small data.
mod Fixtures
mod Entries
mod Money
mod Places
mod Agents
mod Bills
mod Choices
mod Desk
mod Exchange
mod Reviews
mod Gates
mod Sheets

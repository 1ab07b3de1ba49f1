-- ===== src/Cases.antt =====
-- The theorems applied to small databases.
mod Sample
mod Workflow
mod Records
mod Partners
mod Members
mod Agents
mod Reports
mod Voice
mod Outside
mod Talk
mod Passwords
mod Boards
mod Intake
mod Sockets

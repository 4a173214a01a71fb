-- ===== src/Tests.antt =====
-- Concrete inputs, and each result applied to one of them.
mod Samples
mod Runs
mod Phases
mod Sessions
mod Journals
mod Forwards
mod Monitors
mod Drives
mod Listeners
mod Calls
mod Reports
mod Guests
mod Evals
mod Segments

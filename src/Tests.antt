-- ===== src/Tests.antt =====
-- Runs on small worlds that show the hypotheses of the theorems at work.
mod Fixtures
mod Cpis
mod AdapterRuns
mod CpiRuns
mod CreateRuns
mod ThrottleRuns
mod CmdRuns

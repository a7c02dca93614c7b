-- ===== src/Tests.antt =====
-- Runs of the models at concrete inputs, and the theorems at inputs that meet their hypotheses.
mod Codecs
mod Coordinator
mod Leases
mod Search
mod Whittle

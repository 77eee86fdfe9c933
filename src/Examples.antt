-- ===== src/Examples.antt =====
-- Runs of the model on small concrete inputs.
mod Worlds
mod Jobs
mod Watching
mod Activities
mod Api
mod Runs

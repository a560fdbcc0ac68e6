-- ===== src/Examples.antt =====
-- Concrete runs of the models, and each theorem applied to one.
mod Lifecycle
mod Queue
mod Supervisor
mod Gate
mod Trust
mod Relay
mod Decisions
mod Budget
mod Gateway
mod Scheduler
mod Router

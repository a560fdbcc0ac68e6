-- ===== src/Tasks.antt =====
-- runtime/tasks.py: the task queue. Each function is an `Action` on the tables of `Db`; the
-- children define the operations by their concern and prove their laws.
pub mod Rows
pub mod Transition
pub mod Query
pub mod Selection
pub mod Grab
pub mod Enqueue
pub mod Finish
pub mod Recovery
pub mod Views
pub mod Writes
pub mod Calls

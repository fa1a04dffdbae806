-- ===== src/Worker.antt =====
-- demo/worker.py: the worker that runs the jobs of the queue, as a client of its store.
pub mod Rules
pub mod Ends
pub mod Reports
pub mod Loop
mod Tests

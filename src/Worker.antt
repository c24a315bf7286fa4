-- ===== src/Worker.antt =====
-- worker/src/orxtra/worker: the workers that run tools for the program.
pub mod Registry

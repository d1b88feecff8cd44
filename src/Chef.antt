-- ===== src/Chef.antt =====
-- chef/: the execution layer.
pub mod Runner
pub mod Main

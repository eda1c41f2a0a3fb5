-- ===== src/Worker.antt =====
-- The directory worker: the internal memory of a worker, and the interpreter of its queries.
pub mod Memoria
pub mod Interprete

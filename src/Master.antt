-- ===== src/Master.antt =====
-- The directory master: the planner of the queries. The children hold its state, the lists, the
-- assignment of queries to workers, and the threads that attend the queries and the workers.
pub mod Estado
pub mod Listas
pub mod Planificador
pub mod Queries
pub mod Workers
pub mod Fallas
pub mod Atencion
pub mod Coherencia

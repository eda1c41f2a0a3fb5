-- ===== src/Tests.antt =====
-- Runs of the code on small inputs, which also show that the hypotheses of the theorems can hold.
pub mod Master
pub mod Memoria
pub mod Paquete
pub mod Storage
pub mod Bloques
pub mod Interprete

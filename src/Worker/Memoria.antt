-- ===== src/Worker/Memoria.antt =====
-- worker/src/memoria.c: the paged memory in front of the storage. The children hold its state, the
-- replacement by CLOCK-M, the operations on pages, and the access of the interpreter.
pub mod Estado
pub mod Clock
pub mod Paginas
pub mod Reemplazo
pub mod Acceso
pub mod Bien

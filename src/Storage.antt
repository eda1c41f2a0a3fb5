-- ===== src/Storage.antt =====
-- The directory storage: the file system of blocks and the server that works on it.
pub mod Disco
pub mod Bloques
pub mod Inicio
pub mod Archivos
pub mod Escritura
pub mod Commit
pub mod Flush
pub mod Servidor
pub mod Sano
pub mod Vista
pub mod Permisos

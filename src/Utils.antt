-- ===== src/Utils.antt =====
-- The directory utils: the protocol and the packets that the processes exchange.
pub mod Protocolo
pub mod Paquete

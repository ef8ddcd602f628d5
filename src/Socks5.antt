-- ===== src/Socks5.antt =====
-- common/socks5: the SOCKS5 server that receives the arguments of a pluggable transport.
pub mod Args
pub mod Conn
pub mod Handshake

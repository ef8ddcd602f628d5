-- ===== src/Defconn.antt =====
-- transports/defconn: the connection that the defenses extend.
pub mod State
pub mod PacketType
pub mod Packet
pub mod Receive
pub mod Handshake
pub mod Connect
pub mod Read
pub mod Copy

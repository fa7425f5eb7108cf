-- ===== src/Tcp.antt =====
-- The transport over a byte stream: framing, handshake, server and client.
pub mod Framing
pub mod Channel
pub mod Establish
pub mod HandshakeIo
pub mod Server
pub mod Client
mod Tests
mod ChannelTests
mod WrapperTests
mod ListenerTests
mod EstablishTests

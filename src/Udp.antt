-- ===== src/Udp.antt =====
-- src/udp: the datagram substrate.
pub mod WireDgram
pub mod Keys
pub mod CookieGate
pub mod Msg1
pub mod Dataplane
pub mod Handshake
pub mod Server
pub mod Client
pub mod Establish
mod Tests
mod EstablishTests
mod ServeTests

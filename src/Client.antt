-- ===== src/Client.antt =====
-- What the TCP client and the UDP client have in common.
pub mod Calls
pub mod Events

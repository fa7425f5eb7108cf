-- ===== src/Udp/Server.antt =====
-- src/udp/server.rs: the server. `State` has its state, `Hs1`, `Hs3` and `Data` the handlers of the
-- three kinds of datagrams, `Dgram` the handler of all, and `Tasks` the background tasks.
pub mod State
pub mod Hs1
pub mod Hs3
pub mod Data
pub mod Dgram
pub mod Tasks
pub mod Frame
pub mod Runs
pub mod Bounds
pub mod Sessions
pub mod Replies
pub mod Cookies
pub mod Links
pub mod Serve

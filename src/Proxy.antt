-- ===== src/Proxy.antt =====
-- src/proxy: dialing through proxies.
pub mod Number
pub mod Addr
pub mod Socks5
pub mod Base64
pub mod HttpConnect
pub mod Dial
mod Tests

-- ===== src/Proxy/Dial.antt =====
-- src/proxy/mod.rs: `dial`, the tunnel through a chain of proxies.
pub mod Chain
pub mod Sound
use vaiexia_obfs.Common.{ℕ, Option, List, [], ◌∷◌, Result, ok, err}
use vaiexia_obfs.Common.Effects.{◌>>=◌, ◌>>◌, pure, lift}
use vaiexia_obfs.External.{Bytes}
use vaiexia_obfs.Stream.{Stream, Io}
use vaiexia_obfs.Proxy.Addr.{parse_addr}
use vaiexia_obfs.Proxy.Socks5.{ProxyAuth, tunnel_socks5}
use vaiexia_obfs.Proxy.HttpConnect.{tunnel_http_connect}

-- vaiexia_core's `ProxyKind` and `ProxyConfig`; the entries of its chain have the fields of a hop.
pub data ProxyKind : Type 0 where
  socks5 http_connect : ProxyKind

pub record Hop : Type 0 where
  pub kind : ProxyKind
  pub addr : Bytes
  pub auth : Option ProxyAuth

pub record ProxyConfig : Type 0 where
  pub kind : ProxyKind
  pub addr : Bytes
  pub auth : Option ProxyAuth
  pub chain : List Hop

unfoldable pub hop_list : ProxyConfig → List Hop
hop_list proxy = record { kind = proxy.kind; addr = proxy.addr; auth = proxy.auth } ∷ proxy.chain

-- Where a hop is asked to connect to: the next hop, or behind the last one the target.
unfoldable pub next_dest : List Hop → Bytes → ℕ → Result (Bytes × ℕ)
next_dest [] target_host target_port = ok (target_host, target_port)
next_dest (hop ∷ hops) target_host target_port = parse_addr hop.addr

unfoldable pub tunnel : ProxyKind → Bytes → ℕ → Option ProxyAuth → Io (Unit {0})
tunnel socks5 host port auth = tunnel_socks5 host port auth
tunnel http_connect host port auth = tunnel_http_connect host port auth

unfoldable pub dial_hops : List Hop → Bytes → ℕ → Io (Unit {0})
dial_hops [] target_host target_port = pure tt
dial_hops (hop ∷ hops) target_host target_port = do
  next ← lift (next_dest hops target_host target_port)
  tunnel hop.kind next.0 next.1 hop.auth
  dial_hops hops target_host target_port

through : Result (Unit {0}) × Stream → Result Stream
through (ok done, s) = ok s
through (err e, s) = err e

on_connected : ProxyConfig → Bytes → ℕ → Result Stream → Result Stream
unfolding through
on_connected proxy target_host target_port (err e) = err e
on_connected proxy target_host target_port (ok s) =
    through (dial_hops (hop_list proxy) target_host target_port s)

-- `connect_to` is `TcpStream::connect`, the network's part of it.
unfoldable pub dial : (Bytes → Result Stream) → ProxyConfig → Bytes → ℕ → Result Stream
unfolding on_connected
dial connect_to proxy target_host target_port =
    on_connected proxy target_host target_port (connect_to proxy.addr)

-- `dial_socks5` and `dial_http_connect`: one proxy, without a chain.
dialed : Io (Unit {0}) → Result Stream → Result Stream
unfolding through
dialed negotiation (err e) = err e
dialed negotiation (ok s) = through (negotiation s)

unfoldable pub dial_socks5 :
    (Bytes → Result Stream) → Bytes → Bytes → ℕ → Option ProxyAuth → Result Stream
unfolding dialed
dial_socks5 connect_to proxy_addr target_host target_port auth =
    dialed (tunnel_socks5 target_host target_port auth) (connect_to proxy_addr)

unfoldable pub dial_http_connect :
    (Bytes → Result Stream) → Bytes → Bytes → ℕ → Option ProxyAuth → Result Stream
unfolding dialed
dial_http_connect connect_to proxy_addr target_host target_port auth =
    dialed (tunnel_http_connect target_host target_port auth) (connect_to proxy_addr)

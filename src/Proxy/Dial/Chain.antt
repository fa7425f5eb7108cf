-- ===== src/Proxy/Dial/Chain.antt =====
-- Dialing through a chain of proxies that all answer.
use vaiexia_obfs.Common.{ℕ, ◌≤◌, ◌≡◌, Option, List, [], ◌∷◌, ◌++◌, ok, length}
use vaiexia_obfs.External.{Bytes}
use vaiexia_obfs.Stream.{Stream}
use vaiexia_obfs.Proxy.Socks5.{ProxyAuth, greeting, connect_request}
use vaiexia_obfs.Proxy.Socks5.Wire.{Bound}
use vaiexia_obfs.Proxy.Socks5.Success.{Grants, connected}
use vaiexia_obfs.Proxy.HttpConnect.Header.{FirstEnd}
use vaiexia_obfs.Proxy.Dial.{socks5, http_connect, Hop}
use vaiexia_obfs.Proxy.HttpConnect.Status.{IsGrant, request_text}
use vaiexia_obfs.Proxy.Addr.{parse_addr}

-- Where the proxy before these hops has to connect to: to the target if there is none, and to the
-- address of the first if there is one.
abbrev pub IsNext : Bytes → ℕ → List Hop → Bytes → ℕ → Type 0
IsNext target_host target_port [] host port = (host ≡ target_host) × (port ≡ target_port)
IsNext target_host target_port (hop ∷ hops) host port = parse_addr hop.addr ≡ ok (host, port)

-- What the proxies of a chain say, one behind the other, and what the client says to them: each is
-- asked to connect to the next one, and the last to the target.
pub data Dialogue (target_host : Bytes) (target_port : ℕ) : List Hop → Bytes → Bytes → Type 0 where
  arrived : Dialogue target_host target_port [] [] []
  by_socks5 :
      (addr : Bytes) (auth : Option ProxyAuth) (hops : List Hop) (host : Bytes) (port : ℕ)
      (server client : Bytes) (b : Bound) (rsv hi lo : ℕ) (more out : Bytes)
      → IsNext target_host target_port hops host port
      → Grants auth server client
      → length host ≤ 255
      → Dialogue target_host target_port hops more out
      → Dialogue target_host target_port
          (record { kind = socks5; addr = addr; auth = auth } ∷ hops)
          ((server ++ connected b rsv hi lo []) ++ more)
          ((greeting auth ++ (client ++ connect_request host port)) ++ out)
  by_http :
      (addr : Bytes) (auth : Option ProxyAuth) (hops : List Hop) (host : Bytes) (port : ℕ)
      (header more out : Bytes)
      → IsNext target_host target_port hops host port
      → FirstEnd [] header
      → length header ≤ 8192
      → IsGrant header
      → Dialogue target_host target_port hops more out
      → Dialogue target_host target_port
          (record { kind = http_connect; addr = addr; auth = auth } ∷ hops)
          (header ++ more)
          (request_text host port auth ++ out)

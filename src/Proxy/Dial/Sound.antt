-- ===== src/Proxy/Dial/Sound.antt =====
-- What a dial that has succeeded has asked of each proxy.
use vaiexia_obfs.Common.{ℕ, Option, List, [], ◌∷◌}
use vaiexia_obfs.External.{Bytes}
use vaiexia_obfs.Stream.{Stream}
use vaiexia_obfs.Proxy.Socks5.{ProxyAuth}
use vaiexia_obfs.Proxy.Socks5.Sound.{Negotiated}
use vaiexia_obfs.Proxy.HttpConnect.Sound.{Granted}
use vaiexia_obfs.Proxy.Dial.{ProxyKind, socks5, http_connect, Hop}
use vaiexia_obfs.Proxy.Dial.Chain.{IsNext}

-- The proxy has been asked, by its protocol, to connect to the host and the port, and has granted it.
abbrev pub Tunnels : ProxyKind → Bytes → ℕ → Option ProxyAuth → Stream → Stream → Type 0
Tunnels socks5 host port auth s t = Negotiated host port auth s t
Tunnels http_connect host port auth s t = Granted host port auth s t

-- Each proxy, in order, has been asked for the next one, and the last one for the target; each answer
-- has been read before the next proxy is spoken to.
pub data Dialed (host : Bytes) (port : ℕ) : List Hop → Stream → Stream → Type 0 where
  at_target : {s : Stream} → Dialed host port [] s s
  by_hop :
      {hops : List Hop} {s u t : Stream} (hop : Hop) (next : Bytes × ℕ)
      → IsNext host port hops next.0 next.1
      → Tunnels hop.kind next.0 next.1 hop.auth s u
      → Dialed host port hops u t
      → Dialed host port (hop ∷ hops) s t

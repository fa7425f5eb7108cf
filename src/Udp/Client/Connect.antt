-- ===== src/Udp/Client/Connect.antt =====
-- src/udp/client.rs: `connect_udp`. Looking up the name and binding the socket are tokio's.
use vaiexia_obfs.Common.{ℕ, Option, List, [], ◌∷◌, Result, ok, err, io, not_found, text, and_then}
use vaiexia_obfs.External.{Bytes, External, DatagramMimicry}
use vaiexia_obfs.Udp.Dataplane.{DataChannel}
use vaiexia_obfs.Udp.Handshake.Initiator.{Peer, Socket, Udp, client_udp_handshake}
use vaiexia_obfs.Udp.Client
use vaiexia_obfs.Udp.Client.{Client}

module _ ⦃X : External⦄ where
  open X use {protocol, Rng, Entropy, Addr}

  -- `.next().ok_or_else(...)`
  abbrev first_addr : List Addr → Result Addr
  first_addr [] = err (io not_found (text "addr not resolved"))
  first_addr (a ∷ others) = ok a

  -- What `connect_udp` is given.
  pub record Target : Type 0 where
    pub addr : Bytes
    pub server_pub : Bytes
    pub client_private : Bytes
    pub profile : DatagramMimicry Rng
    pub capability : Option protocol.Capability

  abbrev pub peer_of : Target → Addr → Peer
  peer_of t server_addr = record {
    server_addr = server_addr;
    server_pub = t.server_pub;
    client_private = t.client_private;
    mimic = t.profile;
  }

  -- The transport with its pump's generator, and the socket as the handshake leaves it to the pump.
  connected_to : Target → Addr → Rng → Result DataChannel × Udp → Result (Client × Socket)
  connected_to t server_addr rng' (err e, u) = err e
  connected_to t server_addr rng' (ok channel, (k, rng)) =
      ok (Client.new server_addr channel rng' t.capability, k)

  unfoldable pub connect_udp :
      (Bytes → Result (List Addr))
      → Result Socket
      → (ℕ → Entropy)
      → Rng
      → Rng
      → Target
      → Result (Client × Socket)
  unfolding connected_to
  connect_udp lookup_host bind entropy rng rng' t = and_then (lookup_host t.addr) (λ addrs.
      and_then (first_addr addrs) (λ server_addr. and_then bind (λ k.
        connected_to t server_addr rng'
          (client_udp_handshake entropy (peer_of t server_addr) (k, rng)))))

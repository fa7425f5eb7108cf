-- ===== src/Udp/Server/State.antt =====
-- src/udp/server.rs: the server's limits and state.
-- `links` stands for the shared objects of the authenticated sessions: what `Arc<DataChannel>` and
-- the unbounded event queue point to. A `PeerState` holds the number of its link, and so does the
-- sealer task of the session.

use vaiexia_obfs.Common.Map.{Map}
use vaiexia_obfs.Common.{ℕ, List, [], ◌∷◌, ◌++◌, Result, ok, err, set}
use vaiexia_obfs.Envelope.{Envelope}
use vaiexia_obfs.External.{Bytes, External, DatagramMimicry}
use vaiexia_obfs.Verifier.{TransportGate}
use vaiexia_obfs.Udp.CookieGate.{LoadGate}
use vaiexia_obfs.Udp.Dataplane.{DataChannel, seal_envelope}

abbrev pub max_peers : ℕ
max_peers = 1024

abbrev pub max_pending : ℕ
max_pending = 2048

abbrev pub pending_soft_limit : ℕ
pending_soft_limit = 256

-- In milliseconds, as all times.
abbrev pub peer_idle_timeout : ℕ
peer_idle_timeout = 120000

abbrev pub pending_timeout : ℕ
pending_timeout = 5000

module _ ⦃X : External⦄ where
  open X use {
    protocol, Rng, Entropy, Addr, addr_key, Handshake, CookieSecret, Service, handle, verify_topic,
    event_source,
  }

  pub record PendingHandshake : Type 0 where
    pub responder : Handshake
    pub created_at : ℕ

  pub record PeerState : Type 0 where
    pub link : ℕ
    pub last_seen : ℕ

  -- A session's channel, its event queue, and the topics that a task forwards into the queue.
  pub record Link : Type 0 where
    pub dst : Addr
    pub channel : DataChannel
    pub queue : List (Envelope protocol)
    pub topics : List protocol.Topic

  pub record Server : Type 0 where
    pub pending : Map Addr PendingHandshake
    pub peers : Map Addr PeerState
    pub links : List Link
    pub cookie_secret : CookieSecret
    pub service : Service
    pub rng : Rng
    -- The datagrams given to the socket, the oldest first.
    pub sent : List (Addr × Bytes)

  -- What does not change while the server runs.
  pub record Config : Type 0 where
    pub server_priv : Bytes
    pub gate : TransportGate
    pub profile : DatagramMimicry Rng

  -- One receipt: the clock, the operator's gate and the entropy that a handshake draws.
  pub record Receipt : Type 0 where
    pub now : ℕ
    pub load : LoadGate
    pub entropy : Entropy

  -- `return` leaves the handler before its clean-up, `next` goes on to it.
  pub data Flow : Type 0 where
    return : Server → Flow
    next : Server → Flow

  abbrev pub send_to : Addr → Bytes → Server → Server
  send_to dst datagram s = record s { sent = s.sent ++ (dst, datagram) ∷ [] }

  -- A sealed envelope goes to the socket; an error of the sealer is dropped.
  unfoldable pub send_sealed : Addr → Result Bytes → Server → Server
  send_sealed dst (ok w) s = send_to dst w s
  send_sealed dst (err e) s = s

  -- The link `i` with another channel, after a use of it.
  abbrev pub with_channel : ℕ → Link → DataChannel → Server → Server
  with_channel i l ch s = record s { links = set s.links i (record l { channel = ch }) }

  reply_sealed : ℕ → Link → Addr → Result Bytes × DataChannel × Rng → Server → Server
  unfolding send_sealed
  reply_sealed i l src (result, ch, rng) s =
      send_sealed src result (record (with_channel i l ch s) { rng = rng })

  -- `ch.seal_envelope(&env, rng)` on the link's channel, and the send of what it gives.
  unfoldable pub reply : ℕ → Link → Addr → Envelope protocol → Server → Server
  unfolding reply_sealed
  reply i l src env s = reply_sealed i l src (seal_envelope l.channel env s.rng) s

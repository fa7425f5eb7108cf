-- ===== src/Tcp/Client.antt =====
-- src/client.rs: the TCP client, its pump and its requests.
pub mod Answers
use vaiexia_obfs.Common.{
  Bool, true, false, Option, none, some, List, [], ◌∷◌, ◌++◌, Result, ok, err, and_then,
  if◌then◌else◌,
}
use vaiexia_obfs.Envelope.{Envelope, request, response, event, subscribe, ping, pong}
use vaiexia_obfs.External.{Bytes, External, MimicryProfile}
use vaiexia_obfs.Stream.{Stream}
use vaiexia_obfs.Proxy.Addr.{parse_addr}
use vaiexia_obfs.Proxy.Dial.{ProxyConfig, dial}
use vaiexia_obfs.Tcp.Framing.{Conn, send_frame, recv_frame}
use vaiexia_obfs.Tcp.HandshakeIo.{client_handshake_in_place}
use vaiexia_obfs.Client.Calls.{Calls, no_calls, register, forget, resolve, drain}

-- vaiexia_core's `ConnectionState`, as far as the code uses it.
pub data ConnectionState : Type 0 where
  connected down : ConnectionState

module _ ⦃X : External⦄ where
  open X use {protocol, Rng, Entropy, Session}

  -- The transport and its pump: `queue` is the outbound channel, and `is_open` tells that the pump
  -- holds its receiver, and `is_looping` that it has not left its loop.
  pub record Client : Type 0 where
    pub conn : Conn
    pub queue : List (Envelope protocol)
    pub is_open : Bool
    pub is_looping : Bool
    pub calls : Calls
    pub events : List protocol.Event
    pub state : ConnectionState
    pub capability : Option protocol.Capability

  -- The pump has broken out of its loop: it marks the state and drops the pending senders.
  unfoldable pub shut_down : Client → Client
  shut_down c = record c { state = down; calls = drain c.calls; is_looping = false }

  -- The end of the pump's function, which drops the receiver and what waits in it. A request that comes
  -- before it and after the drain is put into the map and into the channel, and nobody takes it out.
  unfoldable pub end_pump : Client → Client
  end_pump c = if c.is_looping then c else record c { queue = []; is_open = false }

  unfoldable pub delayed : MimicryProfile Rng → Conn → Conn
  delayed profile c = record c { pipe = record c.pipe { rng = (profile.jitter c.pipe.rng).1 } }

  wrote : Client → Result (Unit {0}) × Conn → Client
  wrote c (ok done, conn) = record c { conn = conn }
  wrote c (err e, conn) = shut_down (record c { conn = conn })

  on_envelope : MimicryProfile Rng → Envelope protocol → Client → Client
  on_envelope profile (response resp) c = record c { calls = resolve resp c.calls }
  on_envelope profile (event ev) c = record c { events = c.events ++ ev ∷ [] }
  on_envelope profile ping c = record c {
    conn = (send_frame profile pong (delayed profile c.conn)).1;
  }
  on_envelope profile pong c = c
  on_envelope profile _ c = c

  on_received : MimicryProfile Rng → Result (Envelope protocol) × Conn → Client → Client
  unfolding on_envelope
  on_received profile (err e, conn) c = shut_down (record c { conn = conn })
  on_received profile (ok env, conn) c = on_envelope profile env (record c { conn = conn })

  by_queue : MimicryProfile Rng → List (Envelope protocol) → Client → Client
  unfolding wrote on_received
  by_queue profile (env ∷ rest) c =
      wrote (record c { queue = rest }) (send_frame profile env (delayed profile c.conn))
  by_queue profile [] c = on_received profile (recv_frame profile c.conn) c

  -- One round of the pump while it runs; an envelope that waits goes before a frame. The `else`
  -- branch of the select is never taken, as the branch of the frame is never disabled.
  unfoldable pub pump : MimicryProfile Rng → Client → Client
  unfolding by_queue
  pump profile c = if c.is_looping then by_queue profile c.queue c else c

  send_request : protocol.Request → Client → Client
  send_request req c =
      if c.is_open
      then record c { queue = c.queue ++ request req ∷ [] }
      else record c { calls = forget (protocol.request_id req) c.calls }

  -- The part of `request` before it awaits its channel.
  unfoldable pub begin_request : protocol.Request → Client → Client
  unfolding send_request
  begin_request req c =
      send_request req (record c { calls = register (protocol.request_id req) c.calls })

  -- The control message of `subscribe`; `none` is `Disconnected`. The stream of its
  -- events is in Client/Events.
  unfoldable pub begin_subscribe : protocol.Topic → Client → Option Client
  begin_subscribe topic c =
      if c.is_open
      then some (record c { queue = c.queue ++ subscribe topic none c.capability ∷ [] })
      else none

  unfoldable pub connected_client :
      Rng → Option protocol.Capability → Result (Session × Bytes) × Stream → Result Client
  connected_client rng capability (err e, stream) = err e
  connected_client rng capability (ok (session, buf), stream) = ok (record {
    conn = record { pipe = record { stream = stream; rng = rng; buf = buf }; session = session };
    queue = [];
    is_open = true;
    is_looping = true;
    calls = no_calls;
    events = [];
    state = connected;
    capability = capability;
  })

  dialed : (Bytes → Result Stream) → Bytes → Option ProxyConfig → Result Stream
  dialed connect_to addr none = connect_to addr
  dialed connect_to addr (some proxy) =
      and_then (parse_addr addr) (λ hp. dial connect_to proxy hp.0 hp.1)

  -- `rng` and `rng'` are the generators of the handshake and of the pump.
  unfoldable pub connect :
      (Bytes → Result Stream)
      → Entropy
      → Rng
      → Rng
      → Bytes
      → Bytes
      → Bytes
      → MimicryProfile Rng
      → Option ProxyConfig
      → Option protocol.Capability
      → Result Client
  unfolding dialed connected_client
  connect connect_to entropy rng rng' addr local_private server_public profile proxy capability =
      and_then (dialed connect_to addr proxy) (λ stream.
        connected_client rng' capability
          (client_handshake_in_place entropy rng local_private server_public profile stream))

-- ===== src/Udp/Client.antt =====
-- src/udp/client.rs: the UDP client, its pump, and its requests with their retransmission.
pub mod Requests
pub mod Connect
use vaiexia_obfs.Common.{
  ℕ, zero, suc, Bool, true, false, Option, none, some, List, [], ◌∷◌, ◌++◌, Result, ok, err,
  if◌then◌else◌,
}
use vaiexia_obfs.Envelope.{
  Envelope, request, response, event, subscribe, unsubscribe, subscribe_error, ping, pong,
}
use vaiexia_obfs.External.{Bytes, External}
use vaiexia_obfs.Tcp.Client.{ConnectionState, connected, down}
use vaiexia_obfs.Client.Calls.{Calls, no_calls, register, forget, resolve, drain}
use vaiexia_obfs.Udp.Dataplane.{DataChannel, seal_envelope, open_datagram}

abbrev pub max_request_retries : ℕ
max_request_retries = 10

module _ ⦃X : External⦄ where
  open X use {protocol, Rng, Addr}

  -- The transport and its pump: `is_open` tells that the pump holds the receiver of `queue`, and
  -- `is_looping` that it has not left its loop. `sent` are the datagrams given to the socket, the oldest first.
  pub record Client : Type 0 where
    pub server_addr : Addr
    pub channel : DataChannel
    pub rng : Rng
    pub queue : List (Envelope protocol)
    pub is_open : Bool
    pub is_looping : Bool
    pub calls : Calls
    pub events : List protocol.Event
    pub state : ConnectionState
    pub capability : Option protocol.Capability
    pub sent : List (Addr × Bytes)

  unfoldable pub new : Addr → DataChannel → Rng → Option protocol.Capability → Client
  new server_addr channel rng capability = record {
    server_addr = server_addr;
    channel = channel;
    rng = rng;
    queue = [];
    is_open = true;
    is_looping = true;
    calls = no_calls;
    events = [];
    state = connected;
    capability = capability;
    sent = [];
  }

  -- The pump has broken out of its loop: it marks the state and drops the pending senders.
  unfoldable pub shut_down : Client → Client
  shut_down c = record c { state = down; calls = drain c.calls; is_looping = false }

  -- The end of the pump's function, which drops the receiver and what waits in it. A request that comes
  -- before it and after the drain is put into the map and into the channel, and nobody takes it out.
  unfoldable pub end_pump : Client → Client
  end_pump c = if c.is_looping then c else record c { queue = []; is_open = false }

  sent_sealed : Client → Result Bytes × DataChannel × Rng → Client
  sent_sealed c (ok wire, channel, rng) = record c {
    channel = channel;
    rng = rng;
    sent = c.sent ++ (c.server_addr, wire) ∷ [];
  }
  sent_sealed c (err e, channel, rng) = record c { channel = channel; rng = rng }

  unfoldable pub send_envelope : Envelope protocol → Client → Client
  unfolding sent_sealed
  send_envelope env c = sent_sealed c (seal_envelope c.channel env c.rng)

  on_envelope : Option (Envelope protocol) → Client → Client
  on_envelope none c = c
  on_envelope (some (response resp)) c = record c { calls = resolve resp c.calls }
  on_envelope (some (event ev)) c = record c { events = c.events ++ ev ∷ [] }
  on_envelope (some ping) c = send_envelope pong c
  on_envelope (some pong) c = c
  on_envelope (some _) c = c

  on_datagram : Option (Envelope protocol) × DataChannel → Client → Client
  unfolding on_envelope
  on_datagram (env, channel) c = on_envelope env (record c { channel = channel })

  -- What `recv_from` gives; the source address is not looked at.
  pub data Inbound : Type 0 where
    datagram : Bytes → Addr → Inbound
    failed : Inbound

  on_inbound : Inbound → Client → Client
  unfolding on_datagram
  on_inbound failed c = shut_down c
  on_inbound (datagram bytes src) c = on_datagram (open_datagram c.channel bytes) c

  by_queue : List (Envelope protocol) → Inbound → Client → Client
  unfolding on_inbound
  by_queue (env ∷ rest) inbound c = send_envelope env (record c { queue = rest })
  by_queue [] inbound c = on_inbound inbound c

  -- One round of the pump while it runs; `inbound` is looked at only when no envelope waits.
  unfoldable pub udp_pump : Inbound → Client → Client
  unfolding by_queue
  udp_pump inbound c = if c.is_looping then by_queue c.queue inbound c else c

  -- `outbound_tx.send`: false when the pump has ended.
  unfoldable pub offer : Envelope protocol → Client → Bool × Client
  offer env c = if c.is_open then (true, record c { queue = c.queue ++ env ∷ [] }) else (false, c)

  unfoldable pub begin_subscribe : protocol.Topic → Client → Bool × Client
  begin_subscribe topic c = offer (subscribe topic none c.capability) c

  -- How the wait for the oneshot channel ends.
  pub data Waited : Type 0 where
    answered : protocol.Response → Waited
    sender_gone : Waited
    timed_out : Waited

  pub data Outcome : Type 0 where
    response_is : protocol.Response → Outcome
    disconnected : Outcome
    timeout : Outcome

  -- `wait` is what happens while the request waits, from the code's place there: how the wait
  -- ends, and the client as the pump has left it.
  abbrev pub Wait : Type 0
  Wait = Client → Waited × Client

  unfoldable pub after_wait :
      (Client → Outcome × Client) → protocol.Request → Waited × Client → Outcome × Client
  after_wait again req (answered resp, c) = (response_is resp, c)
  after_wait again req (sender_gone, c) = (disconnected, c)
  after_wait again req (timed_out, c) =
      again (record c { calls = forget (protocol.request_id req) c.calls })

  unfoldable pub after_offer :
      (Client → Outcome × Client) → Wait → protocol.Request → Bool × Client → Outcome × Client
  unfolding after_wait
  after_offer again wait req (false, c) =
      (disconnected, record c { calls = forget (protocol.request_id req) c.calls })
  after_offer again wait req (true, c) = after_wait again req (wait c)

  -- The tries that are left: the loop runs over 0..=MAX_REQUEST_RETRIES, and ends with the error
  -- of the timeout.
  unfoldable pub attempts : List Wait → protocol.Request → Client → Outcome × Client
  unfolding after_offer
  attempts [] req c = (timeout, c)
  attempts (wait ∷ waits) req c =
      let again = attempts waits req in
      after_offer again wait req
        (offer (request req) (record c { calls = register (protocol.request_id req) c.calls }))

  unfoldable pub waits_of : ℕ → (ℕ → Wait) → List Wait
  waits_of zero wait = []
  waits_of (suc n) wait = wait zero ∷ waits_of n (λ retry. wait (suc retry))

  unfoldable pub request_response : (ℕ → Wait) → protocol.Request → Client → Outcome × Client
  unfolding waits_of
  request_response wait req c = attempts (waits_of (suc max_request_retries) wait) req c

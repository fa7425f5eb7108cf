-- ===== src/Udp/Handshake/Initiator.antt =====
-- src/udp/handshake.rs: the initiator's side, with its retransmissions and its fresh attempts.
pub mod Bounds
pub mod Ready
use vaiexia_obfs.Common.{
  ℕ, zero, suc, ◌+◌, Bool, true, false, Option, none, some, List, [], ◌∷◌, ◌++◌, Result, ok, err,
  ObfsError, io, os, handshake_failed, text, length, if◌then◌else◌,
}
use vaiexia_obfs.External.{Bytes, External, DatagramMimicry}
use vaiexia_obfs.Udp.WireDgram.{DgramType, hs1, hs2, hs3, cookie, data_record}
use vaiexia_obfs.Udp.Msg1.{encode_msg1_framed, decode_cookie}
use vaiexia_obfs.Udp.Keys.{derive_record_keys}
use vaiexia_obfs.Udp.Dataplane
use vaiexia_obfs.Udp.Dataplane.{DataChannel, open_datagram}
use vaiexia_obfs.Udp.Handshake.{shape_hs, unshape_hs}

abbrev pub max_hs_tries : ℕ
max_hs_tries = 12

abbrev pub max_handshake_attempts : ℕ
max_handshake_attempts = 3

module _ ⦃X : External⦄ where
  open X use {
    Rng, fill_bytes, Entropy, Addr, addr_key, Handshake, initiator, write_message, read_message,
    sealer_new, opener_new,
  }

  -- What the code finds next at the socket: a datagram, an error, or nothing before the timeout that
  -- runs then.
  pub data Inbound : Type 0 where
    datagram : Addr → Bytes → Inbound
    failed : Inbound
    quiet : Inbound

  -- The socket, as its environment has it: what it gives, and how many datagrams more it takes
  -- before sending fails.
  pub record Socket : Type 0 where
    pub inbox : List Inbound
    pub room : ℕ
    pub sent : List (Addr × Bytes)

  -- One handshake: the addresses and the profile do not change.
  pub record Peer : Type 0 where
    pub server_addr : Addr
    pub server_pub : Bytes
    pub client_private : Bytes
    pub mimic : DatagramMimicry Rng

  abbrev pub send_error : ObfsError
  send_error = io os (text "send")

  unfoldable pub send_in : ℕ → Addr → Bytes → Socket → Bool × Socket
  send_in zero dst bytes k = (false, k)
  send_in (suc n) dst bytes k = (true, record k { room = n; sent = k.sent ++ (dst, bytes) ∷ [] })

  unfoldable pub send_to : Addr → Bytes → Socket → Bool × Socket
  unfolding send_in
  send_to dst bytes k = send_in k.room dst bytes k

  pub data Received : Type 0 where
    from_server : Bytes → Received
    recv_failed : Received
    timed_out : Received

  -- `recv_from_server` under a timeout: datagrams of other addresses are skipped, and an inbox with
  -- nothing left stays quiet.
  unfoldable pub recv_from_server : Addr → List Inbound → Received × List Inbound
  recv_from_server server [] = (timed_out, [])
  recv_from_server server (failed ∷ inbox) = (recv_failed, inbox)
  recv_from_server server (quiet ∷ inbox) = (timed_out, inbox)
  recv_from_server server (datagram src bytes ∷ inbox) =
      let next = recv_from_server server inbox in
      if addr_key.equals src server then (from_server bytes, inbox) else next

  -- How the loop of message 1 goes on behind a datagram of the server's.
  pub data Answer : Type 0 where
    msg2 : Bytes → Answer
    new_cookie : Bytes → Answer
    ignored : Answer

  cookie_answer : Option Bytes → Answer
  cookie_answer none = ignored
  cookie_answer (some c) = new_cookie c

  unfoldable pub answer_of : Option (DgramType × Bytes) → Answer
  unfolding cookie_answer
  answer_of none = ignored
  answer_of (some (hs2, body)) = msg2 body
  answer_of (some (cookie, body)) = cookie_answer (decode_cookie body)
  answer_of (some (ty, body)) = ignored

  -- `none`: no message 2 in all the tries.
  pub data Tried : Type 0 where
    got : Option Bytes → Tried
    gave_up : ObfsError → Tried

  abbrev pub Udp : Type 0
  Udp = Socket × Rng

  unfoldable pub on_answer :
      (Option Bytes → Udp → Tried × Udp) → Option Bytes → Answer → Udp → Tried × Udp
  on_answer again current (msg2 body) u = (got (some body), u)
  on_answer again current (new_cookie c) u = again (some c) u
  on_answer again current ignored u = again current u

  unfoldable pub on_received :
      DatagramMimicry Rng
      → (Option Bytes → Udp → Tried × Udp)
      → Option Bytes
      → Received × List Inbound
      → Udp
      → Tried × Udp
  unfolding on_answer answer_of
  on_received mimic again current (timed_out, inbox) (k, rng) =
      again current (record k { inbox = inbox }, rng)
  on_received mimic again current (recv_failed, inbox) (k, rng) =
      (gave_up (io os (text "recv")), (record k { inbox = inbox }, rng))
  on_received mimic again current (from_server bytes, inbox) (k, rng) =
      on_answer again current (answer_of (unshape_hs bytes mimic)) (record k { inbox = inbox }, rng)

  unfoldable pub on_sent :
      Peer → (Option Bytes → Udp → Tried × Udp) → Option Bytes → Bool × Socket → Rng → Tried × Udp
  unfolding on_received
  on_sent p again current (false, k) rng = (gave_up send_error, (k, rng))
  on_sent p again current (true, k) rng =
      on_received p.mimic again current (recv_from_server p.server_addr k.inbox) (k, rng)

  -- The loop of message 1, with the tries that are left.
  unfoldable pub msg1_loop : ℕ → Peer → Bytes → Option Bytes → Udp → Tried × Udp
  unfolding on_sent
  msg1_loop zero p msg1 current u = (got none, u)
  msg1_loop (suc tries) p msg1 current (k, rng) =
      let again = msg1_loop tries p msg1 in
      let (bytes, rng') = shape_hs hs1 (encode_msg1_framed msg1 current) p.mimic rng in
      on_sent p again current (send_to p.server_addr bytes k) rng'

  -- The wait for the server's ready record, under one timeout.
  pub record Waited : Type 0 where
    pub is_ready : Bool
    pub channel : DataChannel
    pub inbox : List Inbound

  on_opened : {E : Type 0} → (DataChannel → Waited) → List Inbound → Option E × DataChannel → Waited
  on_opened again inbox (some env, ch) = record { is_ready = true; channel = ch; inbox = inbox }
  on_opened again inbox (none, ch) = again ch

  unfoldable pub await_ready : Addr → List Inbound → DataChannel → Waited
  unfolding on_opened
  await_ready server [] ch = record { is_ready = false; channel = ch; inbox = [] }
  await_ready server (failed ∷ inbox) ch = record { is_ready = false; channel = ch; inbox = inbox }
  await_ready server (quiet ∷ inbox) ch = record { is_ready = false; channel = ch; inbox = inbox }
  await_ready server (datagram src bytes ∷ inbox) ch =
      let again = await_ready server inbox in
      if addr_key.equals src server
      then on_opened again inbox (open_datagram ch bytes)
      else again ch

  -- The end of one attempt.
  pub data Attempt : Type 0 where
    success : DataChannel → Attempt
    failure : ObfsError → Attempt
    retry : Attempt

  unfoldable pub on_waited :
      (Socket → DataChannel → Attempt × Socket) → Socket → Waited → Attempt × Socket
  on_waited again k w =
      if w.is_ready
      then (success w.channel, record k { inbox = w.inbox })
      else again (record k { inbox = w.inbox }) w.channel

  -- Message 3 again, up to `n` times; an error of these sends is dropped.
  unfoldable pub resend_msg3 : ℕ → Peer → Bytes → Socket → DataChannel → Attempt × Socket
  unfolding on_waited
  resend_msg3 zero p wire3 k ch = (retry, k)
  resend_msg3 (suc n) p wire3 k ch =
      let again = resend_msg3 n p wire3 in
      let k' = (send_to p.server_addr wire3 k).1 in
      on_waited again k' (await_ready p.server_addr k'.inbox ch)

  -- The client seals with the key to the server and opens with the key back.
  unfoldable pub client_channel : DatagramMimicry Rng → Bytes → DataChannel
  unfolding derive_record_keys
  client_channel mimic seed =
      let (c2s_key, s2c_key) = derive_record_keys seed in
      Dataplane.new (sealer_new c2s_key) (opener_new s2c_key) mimic

  unfoldable pub sent_msg3 : Peer → Bytes → Bytes → Bool × Socket → Attempt × Socket
  unfolding on_waited
  sent_msg3 p seed wire3 (false, k) = (failure send_error, k)
  sent_msg3 p seed wire3 (true, k) =
      on_waited (resend_msg3 3 p wire3) k
        (await_ready p.server_addr k.inbox (client_channel p.mimic seed))

  unfoldable pub with_rng : Rng → Attempt × Socket → Attempt × Udp
  with_rng rng (a, k) = (a, (k, rng))

  unfoldable pub on_msg3 : Peer → Bytes → Option Bytes → Udp → Attempt × Udp
  unfolding sent_msg3 with_rng
  on_msg3 p seed none u = (retry, u)
  on_msg3 p seed (some msg3) (k, rng) =
      let (wire3, rng') = shape_hs hs3 msg3 p.mimic rng in
      with_rng rng' (sent_msg3 p seed wire3 (send_to p.server_addr wire3 k))

  unfoldable pub on_msg2 : Peer → Bytes → Option Bytes × Handshake → Udp → Attempt × Udp
  unfolding on_msg3
  on_msg2 p seed (none, hs) u = (retry, u)
  on_msg2 p seed (some payload, hs) u = on_msg3 p seed (write_message hs seed).0 u

  unfoldable pub on_tried : Peer → Bytes → Handshake → Tried × Udp → Attempt × Udp
  unfolding on_msg2
  on_tried p seed hs (gave_up e, u) = (failure e, u)
  on_tried p seed hs (got none, u) = (retry, u)
  on_tried p seed hs (got (some body), u) = on_msg2 p seed (read_message hs body) u

  unfoldable pub on_msg1 : Peer → Bytes → Option Bytes × Handshake → Udp → Attempt × Udp
  unfolding on_tried
  on_msg1 p seed (none, hs) u = (failure (handshake_failed (text "write msg1: ")), u)
  on_msg1 p seed (some msg1, hs) u = on_tried p seed hs (msg1_loop max_hs_tries p msg1 none u)

  unfoldable pub on_initiator : Peer → Bytes → Option Handshake → Udp → Attempt × Udp
  unfolding on_msg1
  on_initiator p seed none u = (failure (handshake_failed (text "initiator: ")), u)
  on_initiator p seed (some hs) u = on_msg1 p seed (write_message hs []) u

  -- One attempt, with a fresh seed and the entropy that its Noise handshake draws.
  unfoldable pub attempt : Entropy → Peer → Udp → Attempt × Udp
  unfolding on_initiator
  attempt entropy p (k, rng) =
      let (seed, rng') = fill_bytes 32 rng in
      on_initiator p seed (initiator entropy p.client_private p.server_pub) (k, rng')

  abbrev pub exhausted : ObfsError
  exhausted = handshake_failed (text "handshake exhausted all attempts")

  unfoldable pub on_attempt :
      (Udp → Result DataChannel × Udp) → Attempt × Udp → Result DataChannel × Udp
  on_attempt again (success ch, u) = (ok ch, u)
  on_attempt again (failure e, u) = (err e, u)
  on_attempt again (retry, u) = again u

  unfoldable pub attempts : ℕ → (ℕ → Entropy) → Peer → Udp → Result DataChannel × Udp
  unfolding on_attempt
  attempts zero entropy p u = (err exhausted, u)
  attempts (suc n) entropy p u =
      let again = attempts n (λ i. entropy (suc i)) p in
      on_attempt again (attempt (entropy zero) p u)

  unfoldable pub client_udp_handshake : (ℕ → Entropy) → Peer → Udp → Result DataChannel × Udp
  client_udp_handshake entropy p u = attempts max_handshake_attempts entropy p u

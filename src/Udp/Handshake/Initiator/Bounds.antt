-- ===== src/Udp/Handshake/Initiator/Bounds.antt =====
-- How much the initiator sends, whatever its socket gives.
use vaiexia_obfs.Common.{
  ℕ, zero, suc, ◌+◌, ◌*◌, ◌≤◌, Bool, true, false, Option, none, some, List, [], ◌∷◌, arith, length,
  length-append, Bool-cases, inl, inr,
}
use vaiexia_obfs.External.{Bytes, External, DatagramMimicry}
use vaiexia_obfs.Udp.WireDgram.{hs1, hs3}
use vaiexia_obfs.Udp.Msg1.{encode_msg1_framed}
use vaiexia_obfs.Udp.Dataplane.{DataChannel}
use vaiexia_obfs.Udp.Handshake.{shape_hs, unshape_hs}
use vaiexia_obfs.Udp.Handshake.Initiator.{
  Inbound, Socket, Peer, Received, from_server, recv_failed, timed_out, Answer, msg2, new_cookie,
  ignored, Tried, got, gave_up, Udp, Waited, Attempt, send_in, on_answer, answer_of, on_received,
  on_sent, on_waited, sent_msg3, with_rng, on_msg3, on_msg2, on_tried, on_msg1, on_initiator,
  on_attempt, success, failure, retry, send_to, recv_from_server, msg1_loop, await_ready,
  resend_msg3, attempt, attempts, client_udp_handshake, max_hs_tries, client_channel,
}

module _ ⦃X : External⦄ where
  open X use {Rng, fill_bytes, Entropy, Addr, Handshake, initiator, write_message, read_message}

  abbrev pub sends : Socket → ℕ
  sends k = length k.sent

  send_in-sends :
      (n : ℕ) (dst : Addr) (bytes : Bytes) (k : Socket)
      → sends (send_in n dst bytes k).1 ≤ sends k + 1
  unfolding send_in
  send_in-sends zero dst bytes k = omega arith
  send_in-sends (suc n) dst bytes k = omega (arith, length-append k.sent ((dst, bytes) ∷ []))

  send_to-sends :
      (dst : Addr) (bytes : Bytes) (k : Socket) → sends (send_to dst bytes k).1 ≤ sends k + 1
  unfolding send_to
  send_to-sends dst bytes k = send_in-sends k.room dst bytes k

  -- At most `n` sends more, from every state.
  abbrev Within : ℕ → (Option Bytes → Udp → Tried × Udp) → Type 0
  Within n again = (current : Option Bytes) (u : Udp) → sends (again current u).1.0 ≤ sends u.0 + n

  on_answer-sends :
      (again : Option Bytes → Udp → Tried × Udp) (n : ℕ)
      → Within n again
      → (current : Option Bytes) (a : Answer) (u : Udp)
      → sends (on_answer again current a u).1.0 ≤ sends u.0 + n
  unfolding on_answer
  on_answer-sends again n h current (msg2 body) u = omega arith
  on_answer-sends again n h current (new_cookie c) u = h (some c) u
  on_answer-sends again n h current ignored u = h current u

  on_received-sends :
      (mimic : DatagramMimicry Rng) (again : Option Bytes → Udp → Tried × Udp) (n : ℕ)
      → Within n again
      → (current : Option Bytes) (r : Received × List Inbound) (u : Udp)
      → sends (on_received mimic again current r u).1.0 ≤ sends u.0 + n
  unfolding on_received
  on_received-sends mimic again n h current (timed_out, inbox) (k, rng) =
      h current (record k { inbox = inbox }, rng)
  on_received-sends mimic again n h current (recv_failed, inbox) (k, rng) = omega arith
  on_received-sends mimic again n h current (from_server bytes, inbox) (k, rng) =
      on_answer-sends again n h current (answer_of (unshape_hs bytes mimic))
        (record k { inbox = inbox }, rng)

  on_sent-sends :
      (p : Peer) (again : Option Bytes → Udp → Tried × Udp) (n : ℕ)
      → Within n again
      → (current : Option Bytes) (s : Bool × Socket) (rng : Rng)
      → sends (on_sent p again current s rng).1.0 ≤ sends s.1 + n
  unfolding on_sent
  on_sent-sends p again n h current (false, k) rng = omega arith
  on_sent-sends p again n h current (true, k) rng =
      on_received-sends p.mimic again n h current (recv_from_server p.server_addr k.inbox) (k, rng)

  msg1_loop-sends :
      (tries : ℕ) (p : Peer) (msg1 : Bytes) (current : Option Bytes) (u : Udp)
      → sends (msg1_loop tries p msg1 current u).1.0 ≤ sends u.0 + tries
  unfolding msg1_loop
  msg1_loop-sends zero p msg1 current u = omega arith
  msg1_loop-sends (suc tries) p msg1 current (k, rng) =
      let w = shape_hs hs1 (encode_msg1_framed msg1 current) p.mimic rng in
      omega (
        arith,
        send_to-sends p.server_addr w.0 k,
        on_sent-sends p (msg1_loop tries p msg1) tries (msg1_loop-sends tries p msg1) current
            (send_to p.server_addr w.0 k) w.1,
      )

  on_waited-sends :
      (again : Socket → DataChannel → Attempt × Socket) (n : ℕ)
      → ((k : Socket) (ch : DataChannel) → sends (again k ch).1 ≤ sends k + n)
      → (k : Socket) (w : Waited) → sends (on_waited again k w).1 ≤ sends k + n
  unfolding on_waited
  on_waited-sends again n h k w = elim (Bool-cases w.is_ready) [
    | inl ready ↦ rw ready (omega arith)
    | inr waiting ↦ rw waiting (h (record k { inbox = w.inbox }) w.channel)
  ]

  resend_msg3-sends :
      (n : ℕ) (p : Peer) (wire3 : Bytes) (k : Socket) (ch : DataChannel)
      → sends (resend_msg3 n p wire3 k ch).1 ≤ sends k + n
  unfolding resend_msg3
  resend_msg3-sends zero p wire3 k ch = omega arith
  resend_msg3-sends (suc n) p wire3 k ch =
      let k' = (send_to p.server_addr wire3 k).1 in
      omega (
        arith,
        send_to-sends p.server_addr wire3 k,
        on_waited-sends (resend_msg3 n p wire3) n (resend_msg3-sends n p wire3) k'
            (await_ready p.server_addr k'.inbox ch),
      )

  sent_msg3-sends :
      (p : Peer) (seed wire3 : Bytes) (s : Bool × Socket)
      → sends (sent_msg3 p seed wire3 s).1 ≤ sends s.1 + 3
  unfolding sent_msg3
  sent_msg3-sends p seed wire3 (false, k) = omega arith
  sent_msg3-sends p seed wire3 (true, k) =
      on_waited-sends (resend_msg3 3 p wire3) 3 (resend_msg3-sends 3 p wire3) k
        (await_ready p.server_addr k.inbox (client_channel p.mimic seed))

  on_msg3-sends :
      (p : Peer) (seed : Bytes) (msg3 : Option Bytes) (u : Udp)
      → sends (on_msg3 p seed msg3 u).1.0 ≤ sends u.0 + 4
  unfolding on_msg3 with_rng
  on_msg3-sends p seed none u = omega arith
  on_msg3-sends p seed (some msg3) (k, rng) =
      let w = shape_hs hs3 msg3 p.mimic rng in
      omega (
        arith,
        send_to-sends p.server_addr w.0 k,
        sent_msg3-sends p seed w.0 (send_to p.server_addr w.0 k),
      )

  on_tried-sends :
      (p : Peer) (seed : Bytes) (hs : Handshake) (t : Tried × Udp)
      → sends (on_tried p seed hs t).1.0 ≤ sends t.1.0 + 4
  unfolding on_tried
  on_tried-sends p seed hs (gave_up e, u) = omega arith
  on_tried-sends p seed hs (got none, u) = omega arith
  on_tried-sends p seed hs (got (some body), u) = by_msg2 (read_message hs body)
    where
      by_msg2 : (r : Option Bytes × Handshake) → sends (on_msg2 p seed r u).1.0 ≤ sends u.0 + 4
      by_msg2 (none, h) = omega arith
      by_msg2 (some payload, h) = on_msg3-sends p seed (write_message h seed).0 u

  on_initiator-sends :
      (p : Peer) (seed : Bytes) (hs : Option Handshake) (u : Udp)
      → sends (on_initiator p seed hs u).1.0 ≤ sends u.0 + 16
  unfolding on_initiator on_msg1
  on_initiator-sends p seed none u = omega arith
  on_initiator-sends p seed (some hs) u = by_msg1 (write_message hs [])
    where
      by_msg1 : (r : Option Bytes × Handshake) → sends (on_msg1 p seed r u).1.0 ≤ sends u.0 + 16
      by_msg1 (none, h) = omega arith
      by_msg1 (some msg1, h) = omega (
        arith,
        msg1_loop-sends max_hs_tries p msg1 none u,
        on_tried-sends p seed h (msg1_loop max_hs_tries p msg1 none u),
      )

  attempts-sends :
      (n : ℕ) (entropy : ℕ → Entropy) (p : Peer) (u : Udp)
      → sends (attempts n entropy p u).1.0 ≤ sends u.0 + 16 * n
  unfolding attempts attempt
  attempts-sends zero entropy p u = omega arith
  attempts-sends (suc n) entropy p (k, rng) =
      let s = fill_bytes 32 rng in
      let hs = initiator (entropy zero) p.client_private p.server_pub in
      omega (
        arith,
        on_initiator-sends p s.0 hs (k, s.1),
        by_attempt (on_initiator p s.0 hs (k, s.1)) (attempts-sends n (λ i. entropy (suc i)) p),
      )
    where
      by_attempt :
          (a : Attempt × Udp)
          → ((v : Udp) → sends (attempts n (λ i. entropy (suc i)) p v).1.0 ≤ sends v.0 + 16 * n)
          → sends (on_attempt (attempts n (λ i. entropy (suc i)) p) a).1.0 ≤ sends a.1.0 + 16 * n
      by_attempt (success ch, v) h = omega arith
      by_attempt (failure e, v) h = omega arith
      by_attempt (retry, v) h = h v

  -- The client's handshake ends after at most 48 datagrams, whatever its socket gives it: at most
  -- 3 attempts, each with 12 sends of message 1, one of message 3 and 3 repeats of it.
  pub client_udp_handshake-sends :
      (entropy : ℕ → Entropy) (p : Peer) (u : Udp)
      → sends (client_udp_handshake entropy p u).1.0 ≤ sends u.0 + 48
  unfolding client_udp_handshake
  client_udp_handshake-sends entropy p u = attempts-sends 3 entropy p u

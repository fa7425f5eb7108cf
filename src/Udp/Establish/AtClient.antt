-- ===== src/Udp/Establish/AtClient.antt =====
-- The initiator's attempt, when the server's two answers come.
use vaiexia_obfs.Common.{
  ℕ, zero, suc, ◌+◌, arith, ◌≡◌, refl, sym, ap, ◌∙◌, true, none, some, List, [], ◌∷◌, ◌++◌,
  append_assoc,
}
use vaiexia_obfs.Envelope.{Envelope}
use vaiexia_obfs.External.{Bytes, External}
use vaiexia_obfs.Udp.WireDgram.{hs1, hs2, hs3}
use vaiexia_obfs.Udp.Msg1.{encode_msg1_framed}
use vaiexia_obfs.Udp.Dataplane.{DataChannel, open_datagram}
use vaiexia_obfs.Udp.Handshake.{shape_hs, unshape_hs}
use vaiexia_obfs.Udp.Handshake.Initiator.{
  Peer, Socket, Inbound, datagram, quiet, success, attempt, client_channel, send_in, send_to,
  recv_from_server, msg1_loop, on_sent, on_received, on_answer, answer_of, await_ready, on_waited,
  sent_msg3, with_rng, on_msg3, on_msg2, on_tried, on_msg1, on_initiator, got, from_server,
}
use vaiexia_obfs.Udp.Establish.{NoiseRun}

module _ ⦃X : External⦄ where
  open X use {protocol, Rng, fill_bytes, Entropy, Addr, addr_key}

  send_to-room :
      (p : Peer) (bytes : Bytes) (k : Socket) (n : ℕ)
      → k.room ≡ suc n
      → send_to p.server_addr bytes k
        ≡ (true, record k { room = n; sent = k.sent ++ (p.server_addr, bytes) ∷ [] })
  unfolding send_to send_in
  send_to-room p bytes k n e = rw e refl

  recv_from_server-first :
      (p : Peer) (w : Bytes) (rest : List Inbound)
      → recv_from_server p.server_addr (datagram p.server_addr w ∷ rest) ≡ (from_server w, rest)
  unfolding recv_from_server
  recv_from_server-first p w rest =
      rw ((addr_key.equals_iff p.server_addr p.server_addr).1 refl) refl

  -- One try of message 1 is enough when message 2 is the answer.
  msg1_loop-first :
      (tries : ℕ) (p : Peer) (m1 w m2 : Bytes) (rest : List Inbound) (k : Socket) (rng : Rng)
      (n : ℕ)
      → k.room ≡ suc n
      → k.inbox ≡ datagram p.server_addr w ∷ rest
      → unshape_hs w p.mimic ≡ some (hs2, m2)
      → let (d, rng') = shape_hs hs1 (encode_msg1_framed m1 none) p.mimic rng in
        msg1_loop (suc tries) p m1 none (k, rng) ≡ (
          got (some m2),
          (record { inbox = rest; room = n; sent = k.sent ++ (p.server_addr, d) ∷ [] }, rng'),
        )
  unfolding msg1_loop on_sent on_received on_answer answer_of
  msg1_loop-first tries p m1 w m2 rest k rng n room inbox plain =
      let (d, rng') = shape_hs hs1 (encode_msg1_framed m1 none) p.mimic rng in
      rw (send_to-room p d k n room, inbox, recv_from_server-first p w rest, plain) refl

  -- The first message in the tries that nothing answers, and the generator behind them.
  abbrev pub unanswered : ℕ → Peer → Bytes → Rng → List (Addr × Bytes)
  unanswered zero p m1 rng = []
  unanswered (suc n) p m1 rng =
      let (d, rng') = shape_hs hs1 (encode_msg1_framed m1 none) p.mimic rng in
      (p.server_addr, d) ∷ unanswered n p m1 rng'

  abbrev pub rng_after : ℕ → Peer → Bytes → Rng → Rng
  rng_after zero p m1 rng = rng
  rng_after (suc n) p m1 rng =
      rng_after n p m1 (shape_hs hs1 (encode_msg1_framed m1 none) p.mimic rng).1

  -- Nothing comes in so many timeouts, then `inbox`.
  abbrev pub after_quiet : ℕ → List Inbound → List Inbound
  after_quiet zero inbox = inbox
  after_quiet (suc n) inbox = quiet ∷ after_quiet n inbox

  -- A try that times out goes on to the next.
  msg1_loop-quiet :
      (tries : ℕ) (p : Peer) (m1 : Bytes) (inbox : List Inbound) (k : Socket) (rng : Rng) (n : ℕ)
      → k.room ≡ suc n
      → k.inbox ≡ quiet ∷ inbox
      → let (d, rng') = shape_hs hs1 (encode_msg1_framed m1 none) p.mimic rng in
        msg1_loop (suc tries) p m1 none (k, rng)
        ≡ msg1_loop tries p m1 none
            (record { inbox = inbox; room = n; sent = k.sent ++ (p.server_addr, d) ∷ [] }, rng')
  unfolding msg1_loop on_sent on_received recv_from_server
  msg1_loop-quiet tries p m1 inbox k rng n room quiet_first =
      let d = (shape_hs hs1 (encode_msg1_framed m1 none) p.mimic rng).0 in
      rw (send_to-room p d k n room, quiet_first) refl

  -- The loop ends with message 2, whatever number of tries before the last one has had no answer.
  msg1_loop-answered :
      (missed tries : ℕ) (p : Peer) (m1 w m2 : Bytes) (rest : List Inbound) (k : Socket) (rng : Rng)
      (n : ℕ)
      → k.room ≡ missed + suc n
      → k.inbox ≡ after_quiet missed (datagram p.server_addr w ∷ rest)
      → unshape_hs w p.mimic ≡ some (hs2, m2)
      → let (d, rng') =
          shape_hs hs1 (encode_msg1_framed m1 none) p.mimic (rng_after missed p m1 rng) in
        msg1_loop (missed + suc tries) p m1 none (k, rng) ≡ (
          got (some m2),
          (
            record {
              inbox = rest;
              room = n;
              sent = k.sent ++ (unanswered missed p m1 rng ++ (p.server_addr, d) ∷ []);
            },
            rng',
          ),
        )
  msg1_loop-answered zero tries p m1 w m2 rest k rng n room inbox plain =
      let e : 0 + suc tries ≡ suc tries = omega arith in
      ap (λ (t : ℕ). msg1_loop t p m1 none (k, rng)) e
      ∙ msg1_loop-first tries p m1 w m2 rest k rng n (room ∙ omega arith) inbox plain
  msg1_loop-answered (suc missed) tries p m1 w m2 rest k rng n room inbox plain =
      let (d, rng') = shape_hs hs1 (encode_msg1_framed m1 none) p.mimic rng in
      let k' : Socket = record {
        inbox = after_quiet missed (datagram p.server_addr w ∷ rest);
        room = missed + suc n;
        sent = k.sent ++ (p.server_addr, d) ∷ [];
      } in
      let (d1, rng1) =
        shape_hs hs1 (encode_msg1_framed m1 none) p.mimic (rng_after missed p m1 rng') in
      let e : suc missed + suc tries ≡ suc (missed + suc tries) = omega arith in
      ap (λ (t : ℕ). msg1_loop t p m1 none (k, rng)) e
      ∙ msg1_loop-quiet (missed + suc tries) p m1
          (after_quiet missed (datagram p.server_addr w ∷ rest)) k rng (missed + suc n)
          (room ∙ omega arith) inbox
      ∙ msg1_loop-answered missed tries p m1 w m2 rest k' rng' n refl refl plain
      ∙ rw
          (append_assoc k.sent ((p.server_addr, d) ∷ [])
            (unanswered missed p m1 rng' ++ (p.server_addr, d1) ∷ []))
          refl

  await_ready-first :
      {env : Envelope protocol} (p : Peer) (w : Bytes) (rest : List Inbound) (ch ch' : DataChannel)
      → open_datagram ch w ≡ (some env, ch')
      → await_ready p.server_addr (datagram p.server_addr w ∷ rest) ch
        ≡ record { is_ready = true; channel = ch'; inbox = rest }
  unfolding await_ready
  await_ready-first p w rest ch ch' opened =
      rw ((addr_key.equals_iff p.server_addr p.server_addr).1 refl, opened) refl

  pub attempt-succeeds :
      {ce se : Entropy} {spriv seed : Bytes} {env : Envelope protocol} (p : Peer) (k : Socket)
      (rng rng0 : Rng) (noise : NoiseRun ce se p.client_private p.server_pub spriv seed)
      (w2 w4 : Bytes) (rest : List Inbound) (ch : DataChannel) (n missed tries : ℕ)
      → missed + suc tries ≡ 12
      → fill_bytes 32 rng ≡ (seed, rng0)
      → k.room ≡ missed + suc (suc n)
      → k.inbox ≡ after_quiet missed (datagram p.server_addr w2 ∷ datagram p.server_addr w4 ∷ rest)
      → unshape_hs w2 p.mimic ≡ some (hs2, noise.m2)
      → open_datagram (client_channel p.mimic seed) w4 ≡ (some env, ch)
      → let (d1, rng1) =
          shape_hs hs1
            (encode_msg1_framed noise.m1 none)
            p.mimic
            (rng_after missed p noise.m1 rng0) in
        let (d3, rng3) = shape_hs hs3 noise.m3 p.mimic rng1 in
        attempt ce p (k, rng) ≡ (
          success ch,
          (
            record {
              inbox = rest;
              room = n;
              sent =
                  k.sent
                  ++ (unanswered missed p noise.m1 rng0
                      ++ (p.server_addr, d1) ∷ (p.server_addr, d3) ∷ []);
            },
            rng3,
          ),
        )
  unfolding attempt on_initiator on_msg1 on_tried on_msg2 on_msg3 sent_msg3 with_rng on_waited
  attempt-succeeds {seed = seed} p k rng rng0 noise w2 w4 rest ch n missed tries bound drawn room
        inbox plain opened =
      let (d1, rng1) =
        shape_hs hs1 (encode_msg1_framed noise.m1 none) p.mimic
          (rng_after missed p noise.m1 rng0) in
      let (d3, rng3) = shape_hs hs3 noise.m3 p.mimic rng1 in
      let before = unanswered missed p noise.m1 rng0 in
      let k1 : Socket = record {
        inbox = datagram p.server_addr w4 ∷ rest;
        room = suc n;
        sent = k.sent ++ (before ++ (p.server_addr, d1) ∷ []);
      } in
      let looped =
        msg1_loop-answered missed tries p noise.m1 w2 noise.m2 (datagram p.server_addr w4 ∷ rest) k
          rng0 (suc n) room inbox plain in
      rw
        (
          drawn,
          noise.begins,
          noise.wrote1,
          ap (λ (t : ℕ). msg1_loop t p noise.m1 none (k, rng0)) (sym bound) ∙ looped,
          noise.read2,
          noise.wrote3,
          send_to-room p d3 k1 n refl,
          await_ready-first p w4 rest (client_channel p.mimic seed) ch opened,
          append_assoc k.sent (before ++ (p.server_addr, d1) ∷ []) ((p.server_addr, d3) ∷ []),
          append_assoc before ((p.server_addr, d1) ∷ []) ((p.server_addr, d3) ∷ []),
        )
        refl

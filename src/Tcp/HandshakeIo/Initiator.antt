-- ===== src/Tcp/HandshakeIo/Initiator.antt =====
-- The initiator's handshake on a byte stream.
use vaiexia_obfs.Common.{
  ◌+◌, ◌-◌, ◌≤◌, ◌≡◌, refl, sym, ◌∙◌, ap, some, [], ◌∷◌, ◌++◌, Result, ok, arith, length,
  append-nil_right,
}
use vaiexia_obfs.External.{Bytes, External, MimicryProfile, IsFraming}
use vaiexia_obfs.Stream.{Stream}
use vaiexia_obfs.Stream.Reads.{write_all-room}
use vaiexia_obfs.Tcp.Framing.{recv_raw}
use vaiexia_obfs.Tcp.Framing.Receive.{recv_raw-Received}
use vaiexia_obfs.Tcp.HandshakeIo.{
  Exchange, send, send_preamble, client_steps, finish, leftover, start, client_handshake_in_place,
  run, on_stream, write_preamble,
}
use vaiexia_obfs.Tcp.HandshakeIo.Leftover.{recv_known, read_known, write_known, send_known}

module _ ⦃X : External⦄ where
  open X use {
    Rng, Entropy, Handshake, initiator, write_message, read_message, Session, into_session,
  }

  -- The exchange after a write that the peer takes.
  abbrev after_write : Bytes → Rng → Exchange → Exchange
  after_write bytes rng x = record x {
    pipe = record x.pipe {
      rng = rng;
      stream = record x.pipe.stream {
        outgoing = x.pipe.stream.outgoing ++ bytes;
        room = x.pipe.stream.room - length bytes;
      };
    };
  }

  preamble_known :
      (from : MimicryProfile Rng) (x : Exchange) (junk : Bytes) (rng : Rng)
      → from.preamble x.pipe.rng ≡ (junk, rng)
      → length junk ≤ x.pipe.stream.room
      → send_preamble from x ≡ (ok tt, after_write junk rng x)
  unfolding send_preamble write_preamble on_stream
  preamble_known from x [] rng f room =
      let same : x.pipe.stream.room ≡ x.pipe.stream.room - 0 = omega arith in
      let out = sym (append-nil_right x.pipe.stream.outgoing) in
      rw f (λ i. (
        ok tt,
        record x {
          pipe = record x.pipe {
            rng = rng;
            stream = record x.pipe.stream { outgoing = out i; room = same i };
          };
        },
      ))
  preamble_known from x (b ∷ junk) rng f room =
      rw (f, write_all-room x.pipe.stream (b ∷ junk) room) refl

  sent_known :
      (from : MimicryProfile Rng) (x : Exchange) (m wire : Bytes) (rng : Rng)
      → from.frame_out m x.pipe.rng ≡ (some wire, rng)
      → length wire ≤ x.pipe.stream.room
      → send from m x ≡ (ok tt, after_write wire rng x)
  sent_known from x m wire rng f room =
      send_known from x m wire rng f room
      ∙ ap
          (λ (w : Result (Unit {0}) × Stream).
            (ok tt, record x { pipe = record x.pipe { rng = rng; stream = w.1 } }))
          (write_all-room x.pipe.stream wire room)

  -- What the initiator finds on its stream, and what its Noise state does: the preamble `junk` and the
  -- frames of messages 1 and 3 fit into what the peer takes, and the peer sends message 2 and `rest`.
  pub record Answered (entropy : Entropy) (rng : Rng) (private public : Bytes)
      (from to : MimicryProfile Rng) (s : Stream) (rest junk wire1 wire3 : Bytes)
      (session : Session) : Type 0 where
    pub wire2 : Bytes
    pub incoming : s.incoming ≡ wire2 ++ rest
    pub m1 : Bytes
    pub m2 : Bytes
    pub m3 : Bytes
    pub p2 : Bytes
    pub h0 : Handshake
    pub h1 : Handshake
    pub h2 : Handshake
    pub h3 : Handshake
    pub r0 : Rng
    pub r1 : Rng
    pub r2 : Rng
    pub r3 : Rng
    pub preamble : to.preamble rng ≡ (junk, r0)
    pub framed1 : to.frame_out m1 r0 ≡ (some wire1, r1)
    pub framed2 : (from.frame_out m2 r2).0 ≡ some wire2
    pub framed3 : to.frame_out m3 r1 ≡ (some wire3, r3)
    pub built : initiator entropy private public ≡ some h0
    pub wrote1 : write_message h0 [] ≡ (some m1, h1)
    pub read2 : read_message h1 m2 ≡ (some p2, h2)
    pub wrote3 : write_message h2 [] ≡ (some m3, h3)
    pub in_session : into_session h3 ≡ some session
    pub room : length junk + length wire1 + length wire3 ≤ s.room

  -- The initiator's handshake has completed.
  pub record Connected (result : Result (Session × Bytes) × Stream) (s : Stream)
      (rest junk wire1 wire3 : Bytes) (session : Session) : Type 0 where
    pub buf : Bytes
    pub stream : Stream
    pub is_ok : result ≡ (ok (session, buf), stream)
    pub keeps : buf ++ stream.incoming ≡ rest
    pub sent : stream.outgoing ≡ ((s.outgoing ++ junk) ++ wire1) ++ wire3

  -- The initiator's handshake completes with the session of its Noise state: it has sent its preamble,
  -- message 1 and message 3, in this order and nothing else, and every byte that the peer has sent behind
  -- message 2 is in the buffer it returns or still in the stream, however the stream is cut.
  pub client_handshake_completes :
      {from to : MimicryProfile Rng} (framing : IsFraming from to) (entropy : Entropy) (rng : Rng)
      (private public : Bytes) (s : Stream) (rest junk wire1 wire3 : Bytes) (session : Session)
      → Answered entropy rng private public from to s rest junk wire1 wire3 session
      → Connected
          (client_handshake_in_place entropy rng private public to s)
          s
          rest
          junk
          wire1
          wire3
          session
  unfolding client_handshake_in_place run client_steps finish leftover
  client_handshake_completes {from} {to} framing entropy rng private public s rest junk wire1 wire3
        session m =
      let x0 : Exchange = start s rng m.h0 in
      let x1 : Exchange = after_write junk m.r0 x0 in
      let x2 : Exchange = record x1 { hs = m.h1 } in
      let x3 : Exchange = after_write wire1 m.r1 x2 in
      let got2 = recv_raw-Received framing x3.pipe m.m2 m.wire2 rest m.r2 m.framed2 m.incoming in
      let x4 : Exchange = record x3 { pipe = (recv_raw to x3.pipe).1 } in
      let x5 : Exchange = record x4 { hs = m.h2 } in
      let x6 : Exchange = record x5 { hs = m.h3 } in
      let x7 : Exchange = after_write wire3 m.r3 x6 in
      record {
        buf = x7.pipe.buf;
        stream = x7.pipe.stream;
        is_ok =
            rw
              (
                m.built,
                preamble_known to x0 junk m.r0 m.preamble (omega (arith, m.room)),
                write_known x1 m.m1 m.h1 m.wrote1,
                sent_known to x2 m.m1 wire1 m.r1 m.framed1 (omega (arith, m.room)),
                recv_known framing x3 m.m2 m.wire2 rest m.r2 m.framed2 m.incoming,
                read_known x4 m.m2 m.p2 m.h2 m.read2,
                write_known x5 m.m3 m.h3 m.wrote3,
                sent_known to x6 m.m3 wire3 m.r3
                    (ap (λ (r : Rng). to.frame_out m.m3 r) got2.same_rng ∙ m.framed3)
                    (omega (arith, m.room, got2.room)),
                m.in_session,
              )
              refl;
        keeps = got2.is_rest;
        sent = ap (λ (bs : Bytes). bs ++ wire3) got2.outgoing;
      }

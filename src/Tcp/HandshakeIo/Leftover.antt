-- ===== src/Tcp/HandshakeIo/Leftover.antt =====
-- The responder's handshake on a byte stream: it completes, and no byte behind it is lost.
use vaiexia_obfs.Common.{
  suc, ◌≤◌, ◌≡◌, refl, sym, ◌∙◌, ap, Option, some, [], ◌∷◌, ◌++◌, Result, ok, arith, length,
}
use vaiexia_obfs.External.{Bytes, External, MimicryProfile, IsFraming}
use vaiexia_obfs.Stream.{Stream, write_all}
use vaiexia_obfs.Stream.Reads.{read_exact_known, write_all-room}
use vaiexia_obfs.Tcp.Framing.{send_raw, recv_raw}
use vaiexia_obfs.Tcp.Framing.Receive.{unread, recv_raw-Received}
use vaiexia_obfs.Tcp.HandshakeIo.{
  Exchange, send, recv, write_hs, read_hs, skip_preamble, skip_bytes, server_steps, static_key,
  finish, leftover, start, server_handshake_in_place, on_pipe, on_stream, on_handshake, discarded,
  run,
}

module _ ⦃X : External⦄ where
  open X use {
    Rng, Entropy, Handshake, responder, write_message, read_message, remote_static, Session,
    into_session,
  }

  pub recv_known :
      {from to : MimicryProfile Rng} (framing : IsFraming from to) (x : Exchange)
      (payload wire rest : Bytes) (r : Rng)
      → (from.frame_out payload r).0 ≡ some wire
      → unread x.pipe ≡ wire ++ rest
      → recv to x ≡ (ok payload, record x { pipe = (recv_raw to x.pipe).1 })
  unfolding recv on_pipe
  recv_known {from} {to} framing x payload wire rest r f e =
      ap (λ q. (q, record x { pipe = (recv_raw to x.pipe).1 }))
        (recv_raw-Received framing x.pipe payload wire rest r f e).is_ok

  pub read_known :
      (x : Exchange) (m p : Bytes) (h : Handshake)
      → read_message x.hs m ≡ (some p, h)
      → read_hs m x ≡ (ok p, record x { hs = h })
  unfolding read_hs on_handshake
  read_known x m p h e = rw e refl

  pub write_known :
      (x : Exchange) (m : Bytes) (h : Handshake)
      → write_message x.hs [] ≡ (some m, h)
      → write_hs x ≡ (ok m, record x { hs = h })
  unfolding write_hs on_handshake
  write_known x m h e = rw e refl

  pub send_known :
      (to : MimicryProfile Rng) (x : Exchange) (m wire : Bytes) (rng : Rng)
      → to.frame_out m x.pipe.rng ≡ (some wire, rng)
      → length wire ≤ x.pipe.stream.room
      → send to m x ≡ (
        ok tt,
        record x { pipe = record x.pipe { rng = rng; stream = (write_all wire x.pipe.stream).1 } },
      )
  unfolding send on_pipe send_raw
  send_known to x m wire rng f room = rw (f, write_all-room x.pipe.stream wire room) refl

  skip_known :
      (to : MimicryProfile Rng) (x : Exchange) (junk rest : Bytes)
      → length junk ≡ to.preamble_skip
      → x.pipe.stream.incoming ≡ junk ++ rest
      → skip_preamble to x ≡ (
        ok tt,
        record x { pipe = record x.pipe { stream = record x.pipe.stream { incoming = rest } } },
      )
  unfolding skip_preamble skip_bytes on_stream discarded
  skip_known to x [] rest size e = rw (sym size) (
      ap
        (λ (bs : Bytes). (
          ok tt,
          record x { pipe = record x.pipe { stream = record x.pipe.stream { incoming = bs } } },
        ))
        e)
  skip_known to x (b ∷ junk) rest size e =
      rw
        (
          sym size,
          read_exact_known (suc (length junk)) x.pipe.stream (b ∷ junk) rest (omega arith) e,
        )
        refl

  -- What the responder finds on its stream, and what its Noise state does with it: the preamble,
  -- message 1, message 3 and `rest`, the first records of the client's.
  pub record Meets (entropy : Entropy) (rng : Rng) (private : Bytes) (from to : MimicryProfile Rng)
      (s : Stream) (rest wire2 : Bytes) (h3 : Handshake) (session : Session) : Type 0 where
    pub junk : Bytes
    pub wire1 : Bytes
    pub wire3 : Bytes
    pub skipped : length junk ≡ to.preamble_skip
    pub incoming : s.incoming ≡ junk ++ (wire1 ++ (wire3 ++ rest))
    pub m1 : Bytes
    pub m2 : Bytes
    pub m3 : Bytes
    pub p1 : Bytes
    pub p3 : Bytes
    pub h0 : Handshake
    pub h1 : Handshake
    pub h2 : Handshake
    pub r1 : Rng
    pub r2 : Rng
    pub r3 : Rng
    pub framed1 : (from.frame_out m1 r1).0 ≡ some wire1
    pub framed3 : (from.frame_out m3 r3).0 ≡ some wire3
    pub framed2 : to.frame_out m2 rng ≡ (some wire2, r2)
    pub built : responder entropy private ≡ some h0
    pub read1 : read_message h0 m1 ≡ (some p1, h1)
    pub wrote2 : write_message h1 [] ≡ (some m2, h2)
    pub read3 : read_message h2 m3 ≡ (some p3, h3)
    pub in_session : into_session h3 ≡ some session
    pub room : length wire2 ≤ s.room

  -- The responder's handshake has completed: the bytes read ahead and those still in the stream are
  -- the client's bytes behind message 3.
  pub record Completed (result : Result (Session × Option Bytes × Bytes) × Stream) (s : Stream)
      (rest wire2 : Bytes) (h3 : Handshake) (session : Session) : Type 0 where
    pub buf : Bytes
    pub stream : Stream
    pub is_ok : result ≡ (ok (session, remote_static h3, buf), stream)
    pub keeps : buf ++ stream.incoming ≡ rest
    pub answered : stream.outgoing ≡ s.outgoing ++ wire2

  -- The responder's handshake completes with the session and the static key of the Noise state, and
  -- loses no byte, however the stream is cut: what it has read past message 3, and what is still in
  -- the stream, are just the bytes that the client has sent behind message 3. It writes message 2
  -- and nothing else.
  pub server_handshake_completes :
      {from to : MimicryProfile Rng} (framing : IsFraming from to) (entropy : Entropy) (rng : Rng)
      (private : Bytes) (s : Stream) (rest wire2 : Bytes) (h3 : Handshake) (session : Session)
      → Meets entropy rng private from to s rest wire2 h3 session
      → Completed (server_handshake_in_place entropy rng private to s) s rest wire2 h3 session
  unfolding server_handshake_in_place run server_steps static_key finish leftover
  server_handshake_completes {from} {to} framing entropy rng private s rest wire2 h3 session m =
      let x0 : Exchange = start s rng m.h0 in
      let behind = m.wire1 ++ (m.wire3 ++ rest) in
      let x1 : Exchange = record x0 {
        pipe = record x0.pipe { stream = record s { incoming = behind } };
      } in
      let got1 =
        recv_raw-Received framing x1.pipe m.m1 m.wire1 (m.wire3 ++ rest) m.r1 m.framed1 refl in
      let x2 : Exchange = record x1 { pipe = (recv_raw to x1.pipe).1 } in
      let x3 : Exchange = record x2 { hs = m.h1 } in
      let x4 : Exchange = record x3 { hs = m.h2 } in
      let room4 : length wire2 ≤ x4.pipe.stream.room = omega (arith, got1.room, m.room) in
      let took = write_all-room x4.pipe.stream wire2 room4 in
      let x5 : Exchange = record x4 {
        pipe = record x4.pipe { rng = m.r2; stream = (write_all wire2 x4.pipe.stream).1 };
      } in
      let unread5 : unread x5.pipe ≡ m.wire3 ++ rest =
        ap (λ (w : Result (Unit {0}) × Stream). x4.pipe.buf ++ w.1.incoming) took ∙ got1.is_rest in
      let got3 = recv_raw-Received framing x5.pipe m.m3 m.wire3 rest m.r3 m.framed3 unread5 in
      let x6 : Exchange = record x5 { pipe = (recv_raw to x5.pipe).1 } in
      let x7 : Exchange = record x6 { hs = h3 } in
      record {
        buf = x7.pipe.buf;
        stream = x7.pipe.stream;
        is_ok =
            rw
              (
                m.built,
                skip_known to x0 m.junk behind m.skipped m.incoming,
                recv_known framing x1 m.m1 m.wire1 (m.wire3 ++ rest) m.r1 m.framed1 refl,
                read_known x2 m.m1 m.p1 m.h1 m.read1,
                write_known x3 m.m2 m.h2 m.wrote2,
                send_known to x4 m.m2 wire2 m.r2
                    (ap (λ (r : Rng). to.frame_out m.m2 r) got1.same_rng ∙ m.framed2) room4,
                recv_known framing x5 m.m3 m.wire3 rest m.r3 m.framed3 unread5,
                read_known x6 m.m3 m.p3 h3 m.read3,
                m.in_session,
              )
              refl;
        keeps = got3.is_rest;
        answered =
            got3.outgoing
            ∙ ap (λ (w : Result (Unit {0}) × Stream). w.1.outgoing) took
            ∙ ap (λ (bs : Bytes). bs ++ wire2) got1.outgoing;
      }

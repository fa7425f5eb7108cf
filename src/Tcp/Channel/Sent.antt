-- ===== src/Tcp/Channel/Sent.antt =====
-- What the ends of a connection rely on, and an envelope that has been sent on it.
use vaiexia_obfs.Common.{◌≡◌, some, ◌++◌, ok, arith, Option-cases, inl, inr}
use vaiexia_obfs.Envelope.{Envelope}
use vaiexia_obfs.External.{Bytes, External, MimicryProfile}
use vaiexia_obfs.Stream.{write_all}
use vaiexia_obfs.Tcp.Framing.{Conn, send_raw, send_frame}
use vaiexia_obfs.Tcp.Framing.Receive.{unread}

module _ ⦃X : External⦄ where
  open X use {protocol, to_vec, from_slice, Rng, Session, encrypt, decrypt}

  -- What the two ends rely on in the session and in serde_json: a relation of a session and its peer's
  -- that says that the peer decrypts next what the session encrypts next. The two directions of a
  -- session have their own keys and counters.
  pub record IsSession (InStep : Session → Session → Type 0) : Type 0 where
    pub decrypt-encrypt :
        (s r : Session) (plain sealed : Bytes)
        → InStep s r
        → (encrypt s plain).0 ≡ some sealed
        → ((decrypt r sealed).0 ≡ some plain) × InStep (encrypt s plain).1 (decrypt r sealed).1
    pub sender_decrypts :
        (s r : Session) (sealed : Bytes) → InStep s r → InStep (decrypt s sealed).1 r
    pub receiver_encrypts :
        (s r : Session) (plain : Bytes) → InStep s r → InStep s (encrypt r plain).1
    pub from_slice-to_vec :
        (env : Envelope protocol) (json : Bytes)
        → to_vec env ≡ some json
        → from_slice json ≡ some env

  -- An envelope that has been sent without an error: its JSON text, encrypted, and framed.
  pub record Sent (from : MimicryProfile Rng) (env : Envelope protocol) (c c' : Conn) : Type 0 where
    pub json : Bytes
    pub body : Bytes
    pub wire : Bytes
    pub to_json : to_vec env ≡ some json
    pub to_body : (encrypt c.session json).0 ≡ some body
    pub framed : (from.frame_out body c.pipe.rng).0 ≡ some wire
    pub next_session : c'.session ≡ (encrypt c.session json).1
    pub outgoing : c'.pipe.stream.outgoing ≡ c.pipe.stream.outgoing ++ wire
    pub incoming : unread c'.pipe ≡ unread c.pipe

  pub send_frame-Sent :
      (from : MimicryProfile Rng) (env : Envelope protocol) (c : Conn)
      → (send_frame from env c).0 ≡ ok tt
      → Sent from env c (send_frame from env c).1
  unfolding send_frame send_raw write_all
  send_frame-Sent from env c h = elim (Option-cases (to_vec env)) [
    | inl no_json ↦ ground arith
    | inr (json, e) ↦ elim (Option-cases (encrypt c.session json).0) [
      | inl no_body ↦ ground arith
      | inr (body, d) ↦ elim (Option-cases (from.frame_out body c.pipe.rng).0) [
        | inl no_wire ↦ ground arith
        | inr (wire, f) ↦ record {
          json = json;
          body = body;
          wire = wire;
          to_json = e;
          to_body = d;
          framed = f;
          next_session = ground arith;
          outgoing = ground arith;
          incoming = ground arith;
        }
      ]
    ]
  ]

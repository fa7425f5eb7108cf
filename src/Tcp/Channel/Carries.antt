-- ===== src/Tcp/Channel/Carries.antt =====
-- One direction of a connection: the bytes on their way are the frames of the envelopes in the queue.
use mathlib.Core.Path.{subst}
use vaiexia_obfs.Common.{
  ◌≡◌, ◌≢◌, refl, sym, some, List, [], ◌∷◌, ◌++◌, ok, arith, append_assoc, append-nil_right,
}
use vaiexia_obfs.Envelope.{Envelope}
use vaiexia_obfs.External.{Bytes, External, MimicryProfile, IsFraming}
use vaiexia_obfs.Tcp.Framing.{Conn, recv_raw, recv_frame}
use vaiexia_obfs.Tcp.Framing.Receive.{unread, recv_raw-Received}
use vaiexia_obfs.Tcp.Channel.Sent.{IsSession, Sent}

module _ ⦃X : External⦄ where
  open X use {protocol, to_vec, from_slice, Rng, Session, encrypt, decrypt}

  -- From the sender's session at the first frame on its way to its session now: the bytes are the
  -- frames of the envelopes. Between them the sender may have decrypted records of its peer's.
  pub data Chain (from : MimicryProfile Rng) (now : Session)
      : Session → Bytes → List (Envelope protocol) → Type 0 where
    nothing : Chain from now now [] []
    frame :
        {s : Session} {bytes : Bytes} {envs : List (Envelope protocol)} (env : Envelope protocol)
        (json body wire : Bytes) (g : Rng)
        → to_vec env ≡ some json
        → (encrypt s json).0 ≡ some body
        → (from.frame_out body g).0 ≡ some wire
        → Chain from now (encrypt s json).1 bytes envs
        → Chain from now s (wire ++ bytes) (env ∷ envs)
    decrypts :
        {s : Session} {bytes : Bytes} {envs : List (Envelope protocol)} (sealed : Bytes)
        → Chain from now (decrypt s sealed).1 bytes envs
        → Chain from now s bytes envs

  Chain-sent :
      {from : MimicryProfile Rng} {now s : Session} {bytes : Bytes}
      {envs : List (Envelope protocol)} (env : Envelope protocol) (json body wire : Bytes) (g : Rng)
      → to_vec env ≡ some json
      → (encrypt now json).0 ≡ some body
      → (from.frame_out body g).0 ≡ some wire
      → Chain from now s bytes envs
      → Chain from (encrypt now json).1 s (bytes ++ wire) (envs ++ env ∷ [])
  Chain-sent {from} {s = s} env json body wire g e d f nothing =
      subst (λ b. Chain from (encrypt s json).1 s b (env ∷ [])) (append-nil_right wire)
        (Chain.frame env json body wire g e d f Chain.nothing)
  Chain-sent {from} {now} {s} env json body wire g e d f
        (frame {bytes = bs} {envs = xs} x j b w g' e' d' f' more) =
      subst (λ z. Chain from (encrypt now json).1 s z (x ∷ xs ++ env ∷ []))
        (sym (append_assoc w bs wire))
        (Chain.frame x j b w g' e' d' f' (Chain-sent env json body wire g e d f more))
  Chain-sent env json body wire g e d f (decrypts sealed more) =
      Chain.decrypts sealed (Chain-sent env json body wire g e d f more)

  Chain-decrypted :
      {from : MimicryProfile Rng} {now s : Session} {bytes : Bytes}
      {envs : List (Envelope protocol)} (sealed : Bytes)
      → Chain from now s bytes envs
      → Chain from (decrypt now sealed).1 s bytes envs
  Chain-decrypted sealed nothing = Chain.decrypts sealed Chain.nothing
  Chain-decrypted sealed (frame x j b w g e d f more) =
      Chain.frame x j b w g e d f (Chain-decrypted sealed more)
  Chain-decrypted sealed (decrypts y more) = Chain.decrypts y (Chain-decrypted sealed more)

  -- One direction: `sender` has sent the envelopes, and the bytes on the way to `receiver` are theirs.
  pub record Carries (InStep : Session → Session → Type 0) (from : MimicryProfile Rng)
      (sender receiver : Session) (bytes : Bytes) (envs : List (Envelope protocol)) : Type 0 where
    pub first : Session
    pub in_step : InStep first receiver
    pub chain : Chain from sender first bytes envs

  recv_frame-ok :
      (to : MimicryProfile Rng) (c : Conn) (body json : Bytes) (env : Envelope protocol)
      → (recv_raw to c.pipe).0 ≡ ok body
      → (decrypt c.session body).0 ≡ some json
      → from_slice json ≡ some env
      → recv_frame to c
        ≡ (ok env, record { pipe = (recv_raw to c.pipe).1; session = (decrypt c.session body).1 })
  unfolding recv_frame
  recv_frame-ok to c body json env got opened parsed = ground arith

  module _ {InStep : Session → Session → Type 0} (session : IsSession InStep) where
    -- A send adds its envelope at the end.
    pub Carries-Sent :
        {from : MimicryProfile Rng} {receiver : Session} {bytes : Bytes}
        {envs : List (Envelope protocol)} (env : Envelope protocol) (c c' : Conn)
        → (d : Sent from env c c') → Carries InStep from c.session receiver bytes envs
        → Carries InStep from c'.session receiver (bytes ++ d.wire) (envs ++ env ∷ [])
    Carries-Sent {from} {bytes = bytes} {envs = envs} env c c' d carried = record {
      first = carried.first;
      in_step = carried.in_step;
      chain =
          subst (λ s. Chain from s carried.first (bytes ++ d.wire) (envs ++ env ∷ []))
            (sym d.next_session)
            (Chain-sent env d.json d.body d.wire c.pipe.rng d.to_json d.to_body d.framed
              carried.chain);
    }

    -- The other direction's use of the two sessions leaves this one alone.
    pub Carries-decrypted :
        {from : MimicryProfile Rng} {sender receiver : Session} {bytes : Bytes}
        {envs : List (Envelope protocol)} (sealed : Bytes)
        → Carries InStep from sender receiver bytes envs
        → Carries InStep from (decrypt sender sealed).1 receiver bytes envs
    Carries-decrypted sealed carried = record {
      first = carried.first;
      in_step = carried.in_step;
      chain = Chain-decrypted sealed carried.chain;
    }

    pub Carries-encrypted :
        {from : MimicryProfile Rng} {sender receiver : Session} {bytes : Bytes}
        {envs : List (Envelope protocol)} (plain : Bytes)
        → Carries InStep from sender receiver bytes envs
        → Carries InStep from sender (encrypt receiver plain).1 bytes envs
    Carries-encrypted {receiver = r} plain carried = record {
      first = carried.first;
      in_step = session.receiver_encrypts carried.first r plain carried.in_step;
      chain = carried.chain;
    }

    -- What a receive from a direction with bytes on their way does: it takes the first envelope.
    pub record Taken (from to : MimicryProfile Rng) (sender : Session) (c : Conn)
        (envs : List (Envelope protocol)) : Type 0 where
      pub env : Envelope protocol
      pub rest : List (Envelope protocol)
      pub body : Bytes
      pub queue : envs ≡ env ∷ rest
      pub result : (recv_frame to c).0 ≡ ok env
      pub session_after : (recv_frame to c).1.session ≡ (decrypt c.session body).1
      pub outgoing : (recv_frame to c).1.pipe.stream.outgoing ≡ c.pipe.stream.outgoing
      pub carried :
          Carries InStep from sender
            (recv_frame to c).1.session
            (unread (recv_frame to c).1.pipe)
            rest

    Chain-Taken :
        {from to : MimicryProfile Rng} {now s : Session} {bytes : Bytes}
        {envs : List (Envelope protocol)} (c : Conn)
        → IsFraming from to
        → Chain from now s bytes envs
        → InStep s c.session
        → unread c.pipe ≡ bytes
        → bytes ≢ []
        → Taken from to now c envs
    Chain-Taken c framing nothing step e n = absurd (n refl)
    Chain-Taken {s = s} c framing (decrypts sealed more) step e n =
        Chain-Taken c framing more (session.sender_decrypts s c.session sealed step) e n
    Chain-Taken {to = to} {s = s} c framing (frame {bytes = bs} {envs = xs} x j b w g e d f more)
          step at_hand n =
        let got = recv_raw-Received framing c.pipe b w bs g f at_hand in
        let (opened, next) = session.decrypt-encrypt s c.session j b step d in
        let done = recv_frame-ok to c b j x got.is_ok opened (session.from_slice-to_vec x j e) in
        record {
          env = x;
          rest = xs;
          body = b;
          queue = refl;
          result = rw done refl;
          session_after = rw done refl;
          outgoing = rw done got.outgoing;
          carried =
              rw (done, got.is_rest)
                (record { first = (encrypt s j).1; in_step = next; chain = more });
        }

    pub recv_frame-Taken :
        {from to : MimicryProfile Rng} {sender : Session} {envs : List (Envelope protocol)}
        (c : Conn)
        → IsFraming from to
        → Carries InStep from sender c.session (unread c.pipe) envs
        → unread c.pipe ≢ []
        → Taken from to sender c envs
    recv_frame-Taken c framing carried n =
        Chain-Taken c framing carried.chain carried.in_step refl n

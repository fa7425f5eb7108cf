-- ===== src/Tcp/Channel/Refinement.antt =====
-- The two ends of a connection implement a queue of envelopes for each direction.
use mathlib.Core.Path.{subst}
use vaiexia_obfs.Common.{ℕ, ◌≡◌, sym, List, [], ◌∷◌, ◌++◌, ok, append_assoc, drop-length_append}
use vaiexia_obfs.Envelope.{Envelope}
use vaiexia_obfs.External.{External, MimicryProfile, IsFraming}
use vaiexia_obfs.Tcp.Framing.{Conn, send_frame, recv_frame}
use vaiexia_obfs.Tcp.Framing.Receive.{unread}
use vaiexia_obfs.Tcp.Channel.{
  Link, flip, written, after_send, after_receive, Action, receives, Side, Act, Step, Run, Queues,
  turn, QueueAct, QueueStep, QueueRun,
}
use vaiexia_obfs.Tcp.Channel.Sent.{IsSession, Sent, send_frame-Sent}
use vaiexia_obfs.Tcp.Channel.Carries.{
  Carries, Carries-Sent, Carries-decrypted, Carries-encrypted, Taken, recv_frame-Taken,
}

module _ ⦃X : External⦄ where
  open X use {protocol, Rng, Session, encrypt, decrypt}

  module _ (InStep : Session → Session → Type 0) where
    -- The queues are what is on its way, in both directions.
    pub record Refines (l : Link) (q : Queues) : Type 0 where
      pub to_far : IsFraming l.near.profile l.far.profile
      pub to_near : IsFraming l.far.profile l.near.profile
      pub out :
          Carries InStep l.near.profile l.near.conn.session l.far.conn.session
            (unread l.far.conn.pipe)
            q.out
      pub back :
          Carries InStep l.far.profile l.far.conn.session l.near.conn.session
            (unread l.near.conn.pipe)
            q.back

    Refines-flip : (l : Link) (q : Queues) → Refines l q → Refines (flip l) (turn q)
    Refines-flip l q h = record {
      to_far = h.to_near;
      to_near = h.to_far;
      out = h.back;
      back = h.out;
    }

  module _ {InStep : Session → Session → Type 0} (session : IsSession InStep) where
    written-Sent :
        (from : MimicryProfile Rng) (env : Envelope protocol) (c c' : Conn)
        → (d : Sent from env c c') → written c c' ≡ d.wire
    written-Sent from env c c' d = rw d.outgoing (drop-length_append c.pipe.stream.outgoing d.wire)

    send-Refines :
        (env : Envelope protocol) (sizes : List ℕ) (l : Link) (q : Queues)
        → (send_frame l.near.profile env l.near.conn).0 ≡ ok tt
        → Refines InStep l q
        → Refines InStep (after_send env sizes l) (record q { out = q.out ++ env ∷ [] })
    send-Refines env sizes l q sent h =
        let d = send_frame-Sent l.near.profile env l.near.conn sent in
        let c' = (send_frame l.near.profile env l.near.conn).1 in
        record {
          to_far = h.to_far;
          to_near = h.to_near;
          out =
              rw
                (
                  written-Sent l.near.profile env l.near.conn c' d,
                  sym (append_assoc l.far.conn.pipe.buf l.far.conn.pipe.stream.incoming d.wire),
                )
                (Carries-Sent session env l.near.conn c' d h.out);
          back = rw (d.incoming, d.next_session) (Carries-encrypted session d.json h.back);
        }

    receive-Refines :
        (l : Link) (q : Queues)
        → (t : Taken session l.far.profile l.near.profile l.far.conn.session l.near.conn q.back)
        → Refines InStep l q
        → Refines InStep (after_receive l) (record q { back = t.rest })
    receive-Refines l q t h = record {
      to_far = h.to_far;
      to_near = h.to_near;
      out = rw t.session_after (Carries-decrypted session t.body h.out);
      back = t.carried;
    }

    Act-Refines :
        {l m : Link} {a : Action}
        → Act l a m
        → (q : Queues) → Refines InStep l q
        → (r : Queues) × QueueAct q a r × Refines InStep m r
    Act-Refines (Act.send env sizes l sent) q h = (
      record q { out = q.out ++ env ∷ [] },
      QueueAct.put env q,
      send-Refines env sizes l q sent h,
    )
    Act-Refines (Act.receive l waiting) q h =
        let t = recv_frame-Taken session l.near.conn h.to_near h.back waiting in
        (
          record q { back = t.rest },
          subst
              (λ x.
                QueueAct (record { out = q.out; back = x })
                  (receives (recv_frame l.near.profile l.near.conn).0)
                  (record { out = q.out; back = t.rest }))
              (sym t.queue)
              (subst
                (λ x.
                  QueueAct (record { out = q.out; back = t.env ∷ t.rest }) (receives x)
                    (record { out = q.out; back = t.rest }))
                (sym t.result) (QueueAct.get t.env q.out t.rest)),
          receive-Refines l q t h,
        )

    -- A step of either end is a step of the queues, with the same action.
    Step-Refines :
        {l m : Link} {a : Side × Action}
        → Step l a m
        → (q : Queues) → Refines InStep l q
        → (r : Queues) × QueueStep q a r × Refines InStep m r
    Step-Refines (Step.near act) q h =
        let (r, moved, after) = Act-Refines act q h in (r, QueueStep.near moved, after)
    Step-Refines (Step.far {m = m} act) q h =
        let (r, moved, after) = Act-Refines act (turn q) (Refines-flip InStep _ q h) in
        (turn r, QueueStep.far moved, Refines-flip InStep m r after)

    -- For ends whose profiles fit and whose sessions are in step, every run of sends and receives of
    -- both, in any order and with the bytes cut in any segments, is a run of the two queues with the
    -- same actions and results: each receive gives the oldest envelope that the peer has sent and
    -- that has not been received, and no receive fails.
    pub Run-Refines :
        {l m : Link} {trace : List (Side × Action)}
        → Run l trace m
        → (q : Queues) → Refines InStep l q
        → (r : Queues) × QueueRun q trace r × Refines InStep m r
    Run-Refines Run.done q h = (q, QueueRun.done, h)
    Run-Refines (Run.step first more) q h =
        let (r, moved, after) = Step-Refines first q h in
        let (s, rest, at_end) = Run-Refines more r after in (s, QueueRun.step moved rest, at_end)

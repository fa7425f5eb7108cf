-- ===== src/Tcp/Channel.antt =====
-- src/framing.rs with two ends: `send_frame` on one connection, `recv_frame` on its peer. The
-- specification is a pair of queues of envelopes, one for each direction.
pub mod Sent
pub mod Carries
pub mod Refinement
pub mod Fifo
use vaiexia_obfs.Common.{ℕ, ◌≡◌, ◌≢◌, List, [], ◌∷◌, ◌++◌, Result, ok, drop, length}
use vaiexia_obfs.Envelope.{Envelope}
use vaiexia_obfs.External.{Bytes, External, MimicryProfile}
use vaiexia_obfs.Tcp.Framing.{Conn, send_frame, recv_frame}
use vaiexia_obfs.Tcp.Framing.Receive.{unread}

module _ ⦃X : External⦄ where
  open X use {protocol, Rng}

  -- One end: its connection, and the profile of its configuration.
  pub record End : Type 0 where
    pub conn : Conn
    pub profile : MimicryProfile Rng

  -- Two ends of a byte stream: what one writes, the other has to read.
  pub record Link : Type 0 where
    pub near : End
    pub far : End

  abbrev pub flip : Link → Link
  flip l = record { near = l.far; far = l.near }

  -- The bytes that a write has added.
  abbrev pub written : Conn → Conn → Bytes
  written before after = drop (length before.pipe.stream.outgoing) after.pipe.stream.outgoing

  -- The bytes arrive behind those on their way, in segments of any sizes.
  abbrev pub arrive : Bytes → List ℕ → Conn → Conn
  arrive bytes sizes c = record c {
    pipe = record c.pipe {
      stream = record c.pipe.stream { incoming = c.pipe.stream.incoming ++ bytes; sizes = sizes };
    };
  }

  abbrev pub after_send : Envelope protocol → List ℕ → Link → Link
  after_send env sizes l =
      let sender : Conn = (send_frame l.near.profile env l.near.conn).1 in
      record {
        near = record l.near { conn = sender };
        far = record l.far { conn = arrive (written l.near.conn sender) sizes l.far.conn };
      }

  abbrev pub after_receive : Link → Link
  after_receive l = record l {
    near = record l.near { conn = (recv_frame l.near.profile l.near.conn).1 };
  }

  pub data Action : Type 0 where
    sends : Envelope protocol → Action
    receives : Result (Envelope protocol) → Action

  pub data Side : Type 0 where
    at_near at_far : Side

  -- A step of the near end. A send without an error; a receive that has bytes to read (with none the
  -- code waits). What is received is the result of the code, an error too.
  pub data Act : Link → Action → Link → Type 0 where
    send :
        (env : Envelope protocol) (sizes : List ℕ) (l : Link)
        → (send_frame l.near.profile env l.near.conn).0 ≡ ok tt
        → Act l (sends env) (after_send env sizes l)
    receive :
        (l : Link)
        → unread l.near.conn.pipe ≢ []
        → Act l (receives (recv_frame l.near.profile l.near.conn).0) (after_receive l)

  pub data Step : Link → Side × Action → Link → Type 0 where
    near : {l m : Link} {a : Action} → Act l a m → Step l (at_near, a) m
    far : {l m : Link} {a : Action} → Act (flip l) a m → Step l (at_far, a) (flip m)

  pub data Run : Link → List (Side × Action) → Link → Type 0 where
    done : {l : Link} → Run l [] l
    step :
        {l m n : Link} {a : Side × Action} {more : List (Side × Action)}
        → Step l a m
        → Run m more n
        → Run l (a ∷ more) n

  -- The specification: what each end has sent and the other has not received.
  pub record Queues : Type 0 where
    pub out : List (Envelope protocol)
    pub back : List (Envelope protocol)

  abbrev pub turn : Queues → Queues
  turn q = record { out = q.back; back = q.out }

  pub data QueueAct : Queues → Action → Queues → Type 0 where
    put :
        (env : Envelope protocol) (q : Queues)
        → QueueAct q (sends env) (record q { out = q.out ++ env ∷ [] })
    get :
        (env : Envelope protocol) (out rest : List (Envelope protocol))
        → QueueAct
            (record { out = out; back = env ∷ rest })
            (receives (ok env))
            (record { out = out; back = rest })

  pub data QueueStep : Queues → Side × Action → Queues → Type 0 where
    near : {q r : Queues} {a : Action} → QueueAct q a r → QueueStep q (at_near, a) r
    far : {q r : Queues} {a : Action} → QueueAct (turn q) a r → QueueStep q (at_far, a) (turn r)

  pub data QueueRun : Queues → List (Side × Action) → Queues → Type 0 where
    done : {q : Queues} → QueueRun q [] q
    step :
        {q r s : Queues} {a : Side × Action} {more : List (Side × Action)}
        → QueueStep q a r
        → QueueRun r more s
        → QueueRun q (a ∷ more) s

-- ===== src/Tcp/Client/Answers.antt =====
-- What becomes of the calls of a TCP client.
use mathlib.Core.Path.{subst}
use vaiexia_obfs.Common.{
  ℕ, ◌+◌, ◌<◌, ◌≤◌, ◌≡◌, refl, sym, Bool, true, false, Option, List, [], ◌∷◌, Result, ok, err,
  arith, Bool-cases, inl, inr, if◌then◌else◌,
}
use vaiexia_obfs.Envelope.{
  Envelope, request, response, event, subscribe, unsubscribe, subscribe_error, ping, pong,
}
use vaiexia_obfs.External.{Bytes, External, MimicryProfile}
use vaiexia_obfs.Stream.{Stream}
use vaiexia_obfs.Tcp.Framing.{Conn, send_frame, recv_frame}
use vaiexia_obfs.Client.Calls.{Calls, no_calls, register, forget, resolve, drain}
use vaiexia_obfs.Client.Calls.Accounts.{
  Run, Run-Accounted, occurs, answered, standing, values, occurs-senders,
}
use vaiexia_obfs.Tcp.Client.{
  Client, shut_down, delayed, wrote, on_envelope, on_received, by_queue, pump, send_request,
  begin_request, connected_client, end_pump,
}

module _ ⦃X : External⦄ where
  open X use {protocol, Rng, Session}

  -- What happens to a client: a request is begun, its pump takes a round, or ends.
  pub data Step : Client → Client → Type 0 where
    asks : (req : protocol.Request) (c : Client) → Step c (begin_request req c)
    pumps : (profile : MimicryProfile Rng) (c : Client) → Step c (pump profile c)
    ends : (c : Client) → Step c (end_pump c)

  pub data Later (c : Client) : Client → Type 0 where
    here : Later c c
    then : {d e : Client} → Later c d → Step d e → Later c e

  -- How often a channel has been given a response or a failure.
  abbrev settled : ℕ → Calls → ℕ
  settled t c = occurs t (answered c.delivered) + occurs t c.dropped

  -- Behind some operations on the calls: no channel is forgotten, and what is settled stays settled.
  record More (c d : Calls) : Type 0 where
    pub run : Run c → Run d
    pub made : c.made ≤ d.made
    pub settled : (t : ℕ) → settled t c ≤ settled t d

  More-refl : (c : Calls) → More c c
  More-refl c = record { run = λ r. r; made = omega arith; settled = λ t. omega arith }

  More-trans : {c d e : Calls} → More c d → More d e → More c e
  More-trans m n = record {
    run = λ r. n.run (m.run r);
    made = omega (arith, m.made, n.made);
    settled = λ t. omega (arith, m.settled t, n.settled t);
  }

  register-More : (id : protocol.RequestId) (c : Calls) → More c (register id c)
  unfolding register occurs
  register-More id c = record {
    run = λ r. Run.registered id c r;
    made = ground arith;
    settled = λ t. ground arith;
  }

  forget-More : (id : protocol.RequestId) (c : Calls) → More c (forget id c)
  unfolding forget occurs
  forget-More id c = record {
    run = λ r. Run.forgotten id c r;
    made = ground arith;
    settled = λ t. ground arith;
  }

  resolve-More : (resp : protocol.Response) (c : Calls) → More c (resolve resp c)
  unfolding resolve occurs
  resolve-More resp c = record {
    run = λ r. Run.resolved resp c r;
    made = ground arith;
    settled = λ t. ground arith;
  }

  drain-More : (c : Calls) → More c (drain c)
  unfolding drain
  drain-More c = record {
    run = λ r. Run.ended c r;
    made = omega arith;
    settled = λ t. omega (arith, occurs-senders t c.pending c.dropped);
  }

  -- A round of the pump; if it leaves the loop, no call waits any more.
  record Rounded (c d : Client) : Type 0 where
    pub more : More c.calls d.calls
    pub is_empty : d.is_looping ≡ false → d.calls.pending ≡ []

  shut_down-Rounded : (c : Client) → Rounded c (shut_down c)
  unfolding shut_down drain
  shut_down-Rounded c = record { more = drain-More c.calls; is_empty = λ _. refl }

  same-Rounded : (c d : Client) → d.is_looping ≡ true → More c.calls d.calls → Rounded c d
  same-Rounded c d h more = record { more = more; is_empty = λ closed. cc }

  envelope-Rounded :
      (profile : MimicryProfile Rng) (env : Envelope protocol) (c : Client)
      → c.is_looping ≡ true
      → Rounded c (on_envelope profile env c)
  unfolding on_envelope
  envelope-Rounded profile (response resp) c h = same-Rounded c _ h (resolve-More resp c.calls)
  envelope-Rounded profile (event ev) c h = same-Rounded c _ h (More-refl c.calls)
  envelope-Rounded profile ping c h = same-Rounded c _ h (More-refl c.calls)
  envelope-Rounded profile pong c h = same-Rounded c _ h (More-refl c.calls)
  envelope-Rounded profile (request req) c h = same-Rounded c _ h (More-refl c.calls)
  envelope-Rounded profile (subscribe t f k) c h = same-Rounded c _ h (More-refl c.calls)
  envelope-Rounded profile (unsubscribe t) c h = same-Rounded c _ h (More-refl c.calls)
  envelope-Rounded profile (subscribe_error t d) c h = same-Rounded c _ h (More-refl c.calls)

  wrote-Rounded :
      (c d : Client) (r : Result (Unit {0}) × Conn)
      → d.is_looping ≡ true
      → d.calls ≡ c.calls
      → Rounded c (wrote d r)
  unfolding wrote shut_down
  wrote-Rounded c d (ok done, conn) h same =
      same-Rounded c _ h (subst (More c.calls) (sym same) (More-refl c.calls))
  wrote-Rounded c d (err e, conn) h same =
      let k = shut_down-Rounded (record d { conn = conn }) in
      record { more = subst (λ x. More x (drain d.calls)) same k.more; is_empty = k.is_empty }

  received-Rounded :
      (profile : MimicryProfile Rng) (c : Client) (r : Result (Envelope protocol) × Conn)
      → c.is_looping ≡ true
      → Rounded c (on_received profile r c)
  unfolding on_received
  received-Rounded profile c (err e, conn) h =
      let k = shut_down-Rounded (record c { conn = conn }) in
      record { more = k.more; is_empty = k.is_empty }
  received-Rounded profile c (ok env, conn) h =
      let k = envelope-Rounded profile env (record c { conn = conn }) h in
      record { more = k.more; is_empty = k.is_empty }

  queue-Rounded :
      (profile : MimicryProfile Rng) (q : List (Envelope protocol)) (c : Client)
      → c.is_looping ≡ true
      → Rounded c (by_queue profile q c)
  unfolding by_queue
  queue-Rounded profile (env ∷ rest) c h =
      wrote-Rounded c (record c { queue = rest }) (send_frame profile env (delayed profile c.conn))
        h refl
  queue-Rounded profile [] c h = received-Rounded profile c (recv_frame profile c.conn) h

  pump-Rounded :
      (profile : MimicryProfile Rng) (c : Client) → c.is_looping ≡ true → Rounded c (pump profile c)
  unfolding pump
  pump-Rounded profile c h = by_loop c.is_looping h
    where
      by_loop : (b : Bool) → b ≡ true → Rounded c (if b then by_queue profile c.queue c else c)
      by_loop true e = queue-Rounded profile c.queue c h
      by_loop false e = cc

  pump-More : (profile : MimicryProfile Rng) (c : Client) → More c.calls (pump profile c).calls
  unfolding pump
  pump-More profile c = by_loop c.is_looping refl
    where
      by_loop :
          (b : Bool)
          → c.is_looping ≡ b
          → More c.calls (if b then by_queue profile c.queue c else c).calls
      by_loop true e = (queue-Rounded profile c.queue c e).more
      by_loop false e = More-refl c.calls

  begin-More : (req : protocol.Request) (c : Client) → More c.calls (begin_request req c).calls
  unfolding begin_request send_request
  begin-More req c =
      let id = protocol.request_id req in
      let asked = register-More id c.calls in
      elim (Bool-cases c.is_open) [
        | inl on ↦ rw on asked
        | inr off ↦ rw off (More-trans asked (forget-More id (register id c.calls)))
      ]

  end-More : (c : Client) → More c.calls (end_pump c).calls
  unfolding end_pump
  end-More c = elim (Bool-cases c.is_looping) [
    | inl on ↦ rw on (More-refl c.calls)
    | inr off ↦ rw off (More-refl c.calls)
  ]

  Later-More : {c d : Client} → Later c d → More c.calls d.calls
  Later-More {c} Later.here = More-refl c.calls
  Later-More (Later.then run (Step.asks req d)) = More-trans (Later-More run) (begin-More req d)
  Later-More (Later.then run (Step.pumps profile d)) =
      More-trans (Later-More run) (pump-More profile d)
  Later-More (Later.then run (Step.ends d)) = More-trans (Later-More run) (end-More d)

  connected-Run :
      (rng : Rng) (capability : Option protocol.Capability)
      (handshake : Result (Session × Bytes) × Stream) (c : Client)
      → connected_client rng capability handshake ≡ ok c
      → Run c.calls
  unfolding connected_client
  connected-Run rng capability (err e, stream) c h = cc
  connected-Run rng capability (ok (session, buf), stream) c h =
      let calls : c.calls ≡ no_calls = ground arith in rw calls Run.begun

  -- In every run of a TCP client, the round by which the pump leaves its loop settles every request
  -- begun before: its channel has been given one response or one failure, and just one for good,
  -- whatever the client does later. Nothing is said of a request begun after that round.
  pub pump-settled :
      (rng : Rng) (capability : Option protocol.Capability)
      (handshake : Result (Session × Bytes) × Stream) (profile : MimicryProfile Rng)
      (start c d : Client) (t : ℕ)
      → connected_client rng capability handshake ≡ ok start
      → Later start c
      → c.is_looping ≡ true
      → (pump profile c).is_looping ≡ false
      → Later (pump profile c) d
      → t < c.calls.made
      → occurs t (answered d.calls.delivered) + occurs t d.calls.dropped ≡ 1
  unfolding standing values occurs
  pump-settled rng capability handshake profile start c d t begun run on left later made =
      let before = (Later-More run).run (connected-Run rng capability handshake start begun) in
      let r = pump-Rounded profile c on in
      let at_end = (Run-Accounted (pump profile c).calls (r.more.run before)).is_one t in
      let more = Later-More later in
      let now = (Run-Accounted d.calls (more.run (r.more.run before))).is_one t in
      ground (arith, at_end, now, more.settled t, r.more.made, more.made, r.is_empty left)

-- ===== src/Tcp/ChannelTests.antt =====
-- Two ends on concrete inputs: a request and a ping of one, and a reply of the other between them.
use vaiexia_obfs.Common.{ℕ, ◌+◌, ◌≡◌, refl, some, List, [], ◌∷◌, ◌++◌, arith, ok}
use vaiexia_obfs.Envelope.{Envelope, request, ping}
use vaiexia_obfs.External.{Bytes}
use vaiexia_obfs.Samples.{sample, sample_protocol, framed, to_json, of_json, decrypt_record}
use vaiexia_obfs.Stream.{eof, read, read_waiting, chunk, write_all}
use vaiexia_obfs.Tcp.Framing.{send_frame, recv_frame, send_raw, recv_raw, recv_loop, on_frame}
use vaiexia_obfs.Tcp.Channel.{
  Link, flip, End, Act, Step, Run, Action, sends, receives, Side, at_near, at_far, after_send,
  after_receive, Queues, QueueRun,
}
use vaiexia_obfs.Tcp.Channel.Sent.{IsSession}
use vaiexia_obfs.Tcp.Channel.Carries.{Chain}
use vaiexia_obfs.Tcp.Channel.Refinement.{Refines, Run-Refines}
use vaiexia_obfs.Tcp.Channel.Fifo.{received_in_order}
use vaiexia_obfs.Tcp.Tests.{framed-IsFraming}

-- The sending counter of one is the receiving counter of the other.
abbrev pub CountsAlike : ℕ × ℕ → ℕ × ℕ → Type 0
CountsAlike s r = s.0 ≡ r.1

decrypt_sample :
    (s r : ℕ × ℕ) (plain sealed : Bytes)
    → CountsAlike s r
    → some (s.0 ∷ plain) ≡ some sealed
    → ((decrypt_record r sealed).0 ≡ some plain)
      × CountsAlike (s.0 + 1, s.1) (decrypt_record r sealed).1
decrypt_sample (a, b) (c, d) plain sealed alike e = ground arith

decrypt_keeps :
    (s r : ℕ × ℕ) (sealed : Bytes) → CountsAlike s r → CountsAlike (decrypt_record s sealed).1 r
decrypt_keeps s r [] h = h
decrypt_keeps (a, b) r (m ∷ plain) h = ground arith

of_json-to_json :
    (env : Envelope sample_protocol) (json : Bytes)
    → to_json env ≡ some json
    → of_json json ≡ some env
of_json-to_json env json h = ground arith

pub sample-IsSession : IsSession CountsAlike
sample-IsSession = record {
  decrypt-encrypt = decrypt_sample;
  sender_decrypts = decrypt_keeps;
  receiver_encrypts = λ s r plain h. h;
  from_slice-to_vec = of_json-to_json;
}

abbrev idle_end : End
idle_end = record {
  conn = record {
    pipe = record {
      stream = record { incoming = []; ending = eof; sizes = []; room = 20; outgoing = [] };
      rng = 0;
      buf = [];
    };
    session = (0, 0);
  };
  profile = framed;
}

abbrev idle_link : Link
idle_link = record { near = idle_end; far = idle_end }

-- The request arrives a byte at a time, the ping with it.
abbrev asked : Link
asked = after_send (request 4) (1 ∷ 1 ∷ 1 ∷ []) idle_link

abbrev asked_twice : Link
asked_twice = after_send ping (1 ∷ []) asked

abbrev served : Link
served = flip (after_receive (flip asked_twice))

abbrev trace : List (Side × Action)
trace =
    (at_near, sends (request 4)) ∷ (at_near, sends ping) ∷ (at_far, receives (ok (request 4))) ∷ []

sample_run : Run idle_link trace served
unfolding send_frame send_raw write_all recv_frame recv_raw recv_loop on_frame read read_waiting
    chunk
sample_run = Run.step (Step.near (Act.send (request 4) (1 ∷ 1 ∷ 1 ∷ []) idle_link refl)) (
    Run.step (Step.near (Act.send ping (1 ∷ []) asked refl))
      (Run.step (Step.far (Act.receive (flip asked_twice) (λ e. cc))) Run.done))

idle-Refines : Refines CountsAlike idle_link (record { out = []; back = [] })
idle-Refines = record {
  to_far = framed-IsFraming;
  to_near = framed-IsFraming;
  out = record { first = (0, 0); in_step = refl; chain = Chain.nothing };
  back = record { first = (0, 0); in_step = refl; chain = Chain.nothing };
}

Run-Refines_example :
    (r : Queues) × QueueRun (record { out = []; back = [] }) trace r × Refines CountsAlike served r
Run-Refines_example =
    Run-Refines sample-IsSession sample_run (record { out = []; back = [] }) idle-Refines

received_in_order_example :
    (waiting : List (Envelope sample_protocol)) × (request 4 ∷ ping ∷ []
      ≡ (request 4 ∷ []) ++ waiting)
received_in_order_example = received_in_order sample-IsSession sample_run idle-Refines

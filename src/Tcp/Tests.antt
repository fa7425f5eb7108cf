-- ===== src/Tcp/Tests.antt =====
-- The byte-stream substrate on concrete inputs.
use vaiexia_obfs.Common.{
  ◌+◌, ◌≡◌, ◌≢◌, ◌↔◌, refl, sym, ◌∙◌, ap, true, none, some, [], ◌∷◌, ◌++◌, arith, length,
  length-append, take-length_append, drop-length_append, le→leb, ok,
}
use vaiexia_obfs.Common.Map
use vaiexia_obfs.External.{Bytes, IsFraming, found, need_more}
use vaiexia_obfs.Samples.{sample, framed}
use vaiexia_obfs.Verifier.{allow_all, key_allow_list, is_accepted}
use vaiexia_obfs.Verifier.AllowList.{IsListed, key_allow_list_exact}
use vaiexia_obfs.Stream.{Stream, eof, read_exact, read, read_waiting, chunk, write_all}
use vaiexia_obfs.Tcp.Framing.{Pipe, recv_raw, recv_loop, on_frame, send_raw, send_frame, recv_frame}
use vaiexia_obfs.Tcp.Framing.Receive.{Frames, Receives, recv_raw_total, recv_raw_all, out_of_rounds}
use vaiexia_obfs.Tcp.HandshakeIo.{
  server_handshake_in_place, run, server_steps, skip_preamble, skip_bytes, discarded, recv, read_hs,
  write_hs, send, static_key, finish, leftover, on_handshake, on_pipe, on_stream,
  client_handshake_in_place,
}
use vaiexia_obfs.Tcp.HandshakeIo.Leftover.{Meets, Completed, server_handshake_completes}
use vaiexia_obfs.Tcp.HandshakeIo.Initiator.{Connected, client_handshake_completes}
use vaiexia_obfs.Tcp.Client.{
  Client, connected, pump, begin_request, connected_client, delayed, shut_down, end_pump,
}
use vaiexia_obfs.Tcp.Client.Answers.{Later, Step, pump-settled}
use vaiexia_obfs.Tcp.Server.{Serving, round, handle_connection, enter}
use vaiexia_obfs.Tcp.Server.Access.{
  Admitted, handle_connection-Admitted, Topics, Subscribes, round-topics, serving,
}
use vaiexia_obfs.Client.Calls.{no_calls, register, resolve, drain}
use vaiexia_obfs.Client.Calls.Accounts.{Run, Accounted, Run-Accounted, occurs, answered}

framed-part :
    (payload front behind : Bytes)
    → length payload ∷ payload ≡ front ++ behind
    → behind ≢ []
    → framed.frame_in front ≡ (need_more, front)
framed-part payload [] behind e n = refl
framed-part payload (c ∷ front) [] e n = absurd (n refl)
framed-part payload (c ∷ front) (b ∷ behind) e n =
    let head : length payload ≡ c = cc in
    let tail : payload ≡ front ++ b ∷ behind = cc in
    let sizes : length payload ≡ length (front ++ b ∷ behind) = ap (λ (l : Bytes). length l) tail in
    ground (arith, head, sizes, length-append front (b ∷ behind))

framed-whole :
    (payload rest : Bytes)
    → framed.frame_in ((length payload ∷ payload) ++ rest) ≡ (found payload, rest)
framed-whole payload rest = rw (
  le→leb (length payload) (length (payload ++ rest)) (omega (arith, length-append payload rest)),
  take-length_append payload rest,
  drop-length_append payload rest,
)

pub framed-IsFraming : IsFraming framed framed
framed-IsFraming = record {
  frame_in-whole = λ payload wire rest r e.
      let whole : wire ≡ length payload ∷ payload = cc in rw whole (framed-whole payload rest);
  frame_in-part = λ payload wire front behind r e cut n.
      let whole : wire ≡ length payload ∷ payload = cc in
      framed-part payload front behind (sym whole ∙ cut) n;
}

-- Two messages and a byte behind them, which arrive one byte at a time.
abbrev slow : Stream
slow = record {
  incoming = 8 ∷ 8 ∷ 1 ∷ 50 ∷ 1 ∷ 50 ∷ 6 ∷ [];
  ending = eof;
  sizes = 1 ∷ 1 ∷ 1 ∷ 1 ∷ 1 ∷ [];
  room = 9;
  outgoing = [];
}

abbrev two_messages : Pipe
two_messages = record {
  stream = record slow { incoming = 2 ∷ 7 ∷ 5 ∷ 1 ∷ 4 ∷ 9 ∷ [] };
  rng = 0;
  buf = [];
}

abbrev sent_two : Frames framed ((7 ∷ 5 ∷ []) ∷ (4 ∷ []) ∷ []) (2 ∷ 7 ∷ 5 ∷ 1 ∷ 4 ∷ [])
sent_two =
    Frames.frame (7 ∷ 5 ∷ []) (2 ∷ 7 ∷ 5 ∷ []) 0 ((4 ∷ []) ∷ []) (1 ∷ 4 ∷ []) refl
      (Frames.frame (4 ∷ []) (1 ∷ 4 ∷ []) 0 [] [] refl Frames.done)

recv_raw_all_example : Receives framed ((7 ∷ 5 ∷ []) ∷ (4 ∷ []) ∷ []) (9 ∷ []) two_messages
recv_raw_all_example =
    recv_raw_all framed framed ((7 ∷ 5 ∷ []) ∷ (4 ∷ []) ∷ []) (2 ∷ 7 ∷ 5 ∷ 1 ∷ 4 ∷ []) (9 ∷ [])
      two_messages framed-IsFraming sent_two refl

recv_raw_total_example : (recv_raw framed two_messages).0 ≢ out_of_rounds
recv_raw_total_example = recv_raw_total framed two_messages

abbrev meets :
    Meets 0 0 (77 ∷ []) framed framed slow (6 ∷ []) (1 ∷ 77 ∷ []) (77 ∷ [], some (50 ∷ [])) (0, 0)
meets = record {
  junk = 8 ∷ 8 ∷ [];
  wire1 = 1 ∷ 50 ∷ [];
  wire3 = 1 ∷ 50 ∷ [];
  skipped = refl;
  incoming = refl;
  m1 = 50 ∷ [];
  m2 = 77 ∷ [];
  m3 = 50 ∷ [];
  p1 = [];
  p3 = [];
  h0 = (77 ∷ [], none);
  h1 = (77 ∷ [], some (50 ∷ []));
  h2 = (77 ∷ [], some (50 ∷ []));
  r1 = 0;
  r2 = 0;
  r3 = 0;
  framed1 = refl;
  framed3 = refl;
  framed2 = refl;
  built = refl;
  read1 = refl;
  wrote2 = refl;
  read3 = refl;
  in_session = refl;
  room = omega arith;
}

server_handshake_completes_example :
    Completed
      (server_handshake_in_place 0 0 (77 ∷ []) framed slow)
      slow
      (6 ∷ [])
      (1 ∷ 77 ∷ [])
      (77 ∷ [], some (50 ∷ []))
      (0, 0)
server_handshake_completes_example =
    server_handshake_completes framed-IsFraming 0 0 (77 ∷ []) slow (6 ∷ []) (1 ∷ 77 ∷ [])
      (77 ∷ [], some (50 ∷ [])) (0, 0) meets

abbrev pub quick : Stream
quick = record slow { sizes = [] }

abbrev entered : Serving
entered = record {
  conn = record {
    pipe = record {
      stream = record quick { incoming = []; sizes = []; room = 7; outgoing = 1 ∷ 77 ∷ [] };
      rng = 3;
      buf = 6 ∷ [];
    };
    session = (0, 0);
  };
  service = 0;
  queue = [];
  topics = [];
}

handle_connection_example :
    Admitted (server_handshake_in_place 0 0 (77 ∷ []) framed quick) allow_all entered
unfolding handle_connection enter server_handshake_in_place run server_steps skip_preamble
    skip_bytes discarded read_exact recv recv_raw recv_loop on_frame read read_waiting chunk read_hs
    write_hs send send_raw write_all static_key finish leftover on_handshake on_pipe on_stream
    allow_all
handle_connection_example =
    handle_connection-Admitted 0 0 3 (77 ∷ []) 0 allow_all framed quick entered refl

abbrev subscribing : Serving
subscribing = record entered {
  conn = record {
    pipe = record {
      stream = record quick { incoming = 4 ∷ 0 ∷ 5 ∷ 4 ∷ 9 ∷ [] };
      rng = 0;
      buf = [];
    };
    session = (0, 0);
  };
}

round-topics_example :
    Topics (Subscribes framed subscribing) subscribing (serving (round framed subscribing)).topics
round-topics_example = round-topics framed subscribing

key_allow_list_exact_example :
    (is_accepted ((key_allow_list ((1 ∷ []) ∷ [])).authenticate (1 ∷ [])) ≡ true)
    ↔ IsListed (1 ∷ []) ((1 ∷ []) ∷ [])
key_allow_list_exact_example = key_allow_list_exact ((1 ∷ []) ∷ []) (1 ∷ [])

-- A call that is answered, and one that waits as the pump ends.
abbrev two_calls : Run (resolve 4 (register 5 (register 4 no_calls)))
two_calls =
    Run.resolved 4 (register 5 (register 4 no_calls))
      (Run.registered 5 (register 4 no_calls) (Run.registered 4 no_calls Run.begun))

Run-Accounted_example : Accounted (resolve 4 (register 5 (register 4 no_calls)))
Run-Accounted_example = Run-Accounted (resolve 4 (register 5 (register 4 no_calls))) two_calls

abbrev answering : Stream
answering = record slow { incoming = 1 ∷ 77 ∷ 5 ∷ 6 ∷ [] }

client_handshake_completes_example :
    Connected
      (client_handshake_in_place 0 0 (50 ∷ []) (77 ∷ []) framed answering)
      answering
      (5 ∷ 6 ∷ [])
      (8 ∷ 8 ∷ [])
      (1 ∷ 50 ∷ [])
      (1 ∷ 50 ∷ [])
      (0, 0)
client_handshake_completes_example =
    client_handshake_completes framed-IsFraming 0 0 (50 ∷ []) (77 ∷ []) answering (5 ∷ 6 ∷ [])
      (8 ∷ 8 ∷ []) (1 ∷ 50 ∷ []) (1 ∷ 50 ∷ []) (0, 0)
      (record {
        wire2 = 1 ∷ 77 ∷ [];
        incoming = refl;
        m1 = 50 ∷ [];
        m2 = 77 ∷ [];
        m3 = 50 ∷ [];
        p2 = [];
        h0 = (50 ∷ [], some (77 ∷ []));
        h1 = (50 ∷ [], some (77 ∷ []));
        h2 = (50 ∷ [], some (77 ∷ []));
        h3 = (50 ∷ [], some (77 ∷ []));
        r0 = 0;
        r1 = 0;
        r2 = 0;
        r3 = 0;
        preamble = refl;
        framed1 = refl;
        framed2 = refl;
        framed3 = refl;
        built = refl;
        wrote1 = refl;
        read2 = refl;
        wrote3 = refl;
        in_session = refl;
        room = omega arith;
      })

-- A client whose only request is answered, and whose stream then ends.
abbrev client_stream : Stream
client_stream = record slow { incoming = 3 ∷ 0 ∷ 2 ∷ 4 ∷ []; sizes = [] }

abbrev first_client : Client
first_client = record {
  conn = record { pipe = record { stream = client_stream; rng = 0; buf = [] }; session = (0, 0) };
  queue = [];
  is_open = true;
  is_looping = true;
  calls = no_calls;
  events = [];
  state = connected;
  capability = none;
}

abbrev asked : Client
asked = begin_request 4 first_client

abbrev last_client : Client
last_client = pump framed (pump framed (pump framed asked))

before_run : Later first_client (pump framed (pump framed asked))
before_run =
    Later.then
      (Later.then (Later.then Later.here (Step.asks 4 first_client)) (Step.pumps framed asked))
      (Step.pumps framed (pump framed asked))

-- A request more, between the drain and the end.
abbrev late_client : Client
late_client = end_pump (begin_request 5 last_client)

after_run : Later last_client late_client
after_run =
    Later.then (Later.then Later.here (Step.asks 5 last_client))
      (Step.ends (begin_request 5 last_client))

pump-settled_example :
    occurs 0 (answered late_client.calls.delivered) + occurs 0 late_client.calls.dropped ≡ 1
unfolding pump begin_request send_frame send_raw write_all delayed recv_frame recv_raw recv_loop
    read shut_down drain register resolve Map.get Map.insert Map.remove no_calls connected_client
pump-settled_example =
    pump-settled 0 none (ok ((0, 0), []), client_stream) framed first_client
      (pump framed (pump framed asked)) late_client 0 refl before_run refl refl after_run
      (omega arith)

-- ===== src/Tcp/EstablishTests.antt =====
-- A client that connects to a server, on concrete inputs.
use vaiexia_obfs.Common.{refl, none, some, [], ◌∷◌, ok, arith, codes}
use vaiexia_obfs.Samples.{sample, framed}
use vaiexia_obfs.Verifier.{allow_all}
use vaiexia_obfs.Stream.{Stream, eof}
use vaiexia_obfs.Tcp.Client.{connect}
use vaiexia_obfs.Tcp.Server.{handle_connection}
use vaiexia_obfs.Tcp.Establish.{NoiseRun, OnWire, Established, connect-Established}
use vaiexia_obfs.Tcp.Tests.{framed-IsFraming}
use vaiexia_obfs.Tcp.ChannelTests.{CountsAlike}

abbrev noise : NoiseRun CountsAlike 0 0 (50 ∷ []) (77 ∷ []) (77 ∷ [])
noise = record {
  m1 = 50 ∷ [];
  m2 = 77 ∷ [];
  m3 = 50 ∷ [];
  p1 = [];
  p2 = [];
  p3 = [];
  i0 = (50 ∷ [], some (77 ∷ []));
  i1 = (50 ∷ [], some (77 ∷ []));
  i2 = (50 ∷ [], some (77 ∷ []));
  i3 = (50 ∷ [], some (77 ∷ []));
  r0 = (77 ∷ [], none);
  r1 = (77 ∷ [], some (50 ∷ []));
  r2 = (77 ∷ [], some (50 ∷ []));
  r3 = (77 ∷ [], some (50 ∷ []));
  client_static = 50 ∷ [];
  client_session = (0, 0);
  server_session = (0, 0);
  begins = refl;
  answers = refl;
  wrote1 = refl;
  read1 = refl;
  wrote2 = refl;
  read2 = refl;
  wrote3 = refl;
  read3 = refl;
  known = refl;
  at_client = refl;
  at_server = refl;
  up = refl;
  down = refl;
}

abbrev on_wire : OnWire framed framed 0 5 (50 ∷ []) (77 ∷ []) (50 ∷ [])
on_wire = record {
  junk = 8 ∷ 8 ∷ [];
  wire1 = 1 ∷ 50 ∷ [];
  wire2 = 1 ∷ 77 ∷ [];
  wire3 = 1 ∷ 50 ∷ [];
  g0 = 0;
  g1 = 0;
  g2 = 5;
  g3 = 0;
  preamble = refl;
  skipped = refl;
  framed1 = refl;
  framed2 = refl;
  framed3 = refl;
}

abbrev client_end : Stream
client_end = record {
  incoming = 1 ∷ 77 ∷ [];
  ending = eof;
  sizes = 1 ∷ [];
  room = 40;
  outgoing = [];
}

abbrev server_end : Stream
server_end = record {
  incoming = 8 ∷ 8 ∷ 1 ∷ 50 ∷ 1 ∷ 50 ∷ [];
  ending = eof;
  sizes = 1 ∷ 1 ∷ 2 ∷ [];
  room = 40;
  outgoing = [];
}

connect-Established_example :
    Established CountsAlike framed framed
      (connect
        (λ addr. ok client_end)
        0
        0
        6
        (codes "server:1")
        (50 ∷ [])
        (77 ∷ [])
        framed
        none
        none)
      (handle_connection 0 5 7 (77 ∷ []) 0 allow_all framed server_end)
      (8 ∷ 8 ∷ 1 ∷ 50 ∷ 1 ∷ 50 ∷ [])
      (1 ∷ 77 ∷ [])
unfolding allow_all
connect-Established_example =
    connect-Established framed-IsFraming framed-IsFraming 0 0 0 5 6 7 (50 ∷ []) (77 ∷ []) (77 ∷ [])
      (codes "server:1") 0 allow_all none (λ addr. ok client_end) client_end server_end noise
      on_wire refl refl refl refl refl (omega arith) (omega arith) refl

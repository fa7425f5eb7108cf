-- ===== src/Lib.antt =====
-- Verification of vaiexia-obfs, an encrypted transport over TCP and UDP: Noise-XK handshakes,
-- traffic-mimicry profiles and the envelopes of vaiexia-core's RPC.
--
-- The program's parts, and the files that model them:
--   * src/lib.rs, src/envelope.rs: Common/Errors (ObfsError, Result) and Envelope.
--   * src/verifier.rs: Verifier (TransportGate, AllowAll, KeyAllowList).
--   * src/framing.rs: Tcp/Framing. An end is a Pipe: the stream, the generator and the buffer that the
--     code passes by reference; a Conn has the session too. send_frame, recv_frame, send_raw and
--     recv_raw keep their names. Tcp/Framing/Wrappers has FramedWriter, FramedReader, write_frame and
--     read_frame; the profile Vanilla that the last two use is a parameter.
--   * Tcp/Channel puts two ends together: what one writes arrives at the other, and the specification is
--     a pair of queues. Tcp/Establish runs a client's handshake against a server's.
--   * src/handshake_io.rs: Tcp/HandshakeIo. The two drivers are do blocks of the source's steps.
--   * src/server.rs: Tcp/Server. handle_connection goes as far as the pump, and round is one turn of
--     its select loop; the state Serving has the event queue and the topics that tasks forward.
--     Tcp/Server/Listener has serve_obfs: the accept loop, the handle, and the connections with the
--     service that they share.
--   * src/client.rs: Tcp/Client (connect, pump, and request and subscribe up to their await), and
--     Client/Calls for the map of pending requests and Client/Events for the event stream of
--     subscribe, which src/udp/client.rs has as well.
--   * src/proxy: Proxy/Addr, Proxy/Number, Proxy/Dial (mod.rs), Proxy/Socks5 (socks5.rs), Proxy/Base64
--     and Proxy/HttpConnect (http_connect.rs).
--   * src/udp: Udp/WireDgram, Udp/Keys, Udp/CookieGate, Udp/Dataplane; Udp/Msg1, Udp/Handshake (the
--     responder) and Udp/Handshake/Initiator (client_udp_handshake) for handshake.rs; Udp/Client,
--     with connect_udp in its child Connect; Udp/Server, whose State has what serve_obfs_udp keeps in its
--     tasks, and whose children have handle_dgram by the type of the datagram (Hs1, Hs3, Data),
--     composed in Dgram, and the tasks. Udp/Server/Serve has serve_obfs_udp, its loops and the handle.
--     Udp/Establish runs the initiator against the server.
--
-- The TCP server and client use Tcp/HandshakeIo, and it uses Tcp/Framing; the client reaches the
-- server directly or through Proxy/Dial. The UDP server and client use Udp/Handshake and, when it has
-- ended, Udp/Dataplane. Each server asks the TransportGate before it takes a peer.
--
-- What is outside of the repository is a parameter: External has the operations of vaiexia-wire,
-- serde_json, BLAKE2s and the core's Service, Protocol the types of vaiexia-core. What theorems rely
-- on is named: IsFraming and Unshapes for profiles, IsRecordLayer for the record layer, IsSession for
-- the Noise session, NoiseRun for an exchange of the Noise crate. Samples is a concrete instance, for
-- tests.
--
-- The environment is explicit. A Stream of Stream.antt holds what the peer sends, how reads cut it, how
-- much it takes and how it ends; the socket of the UDP initiator holds what it will give; a Receipt of the
-- UDP server holds the clock, the operator's gate and the entropy of one datagram. Times are
-- milliseconds, and a sleep is no part of a state. The objects that several tasks of the UDP server share
-- are links in a list, and a session holds the number of its link. Select loops are sequences of rounds.
-- A client's pump ends in two steps, the drain of its calls and the drop of its receiver, and a task that
-- is aborted ends where it yields.
--
-- Fuel: recv_loop has one round more than the bytes that wait, since every read but the last gives one
-- byte at least; read_header has one more than its maximum of 8192 bytes. Both are proved enough below.
-- All else is structural recursion, on the source's own counters or on the inputs.
--
-- Not modelled: the accessors of the two local addresses and of the connection's state; the sleeps of
-- the jitter and the durations of the timers, which only decide when a step is taken;
-- the cancellation of an aborted task in the middle of a datagram's handling, where the service is awaited
-- or the socket sends; and test code.
pub mod Common
pub mod Protocol
pub mod Envelope
pub mod External
pub mod Verifier
pub mod Stream
pub mod Proxy
pub mod Client
pub mod Tcp
pub mod Samples
pub mod Udp

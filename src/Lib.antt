-- ===== src/Lib.antt =====
-- vs-vpn: a SOCKS5 proxy that carries connections through a tunnel to a server, which dials the
-- target.
--
-- A SOCKS5 client speaks to the proxy (lib/src/client.rs); the proxy connects a tunnel, sends a
-- header with the target (lib/src/protocol.rs) as its first frame, waits for a status frame and then
-- relays bytes both ways. The server (lib/src/server.rs) takes tunnels from an acceptor, reads the
-- header, dials the target, answers by a status frame and relays. A tunnel is one of three transports
-- behind one interface (feature/tunnel/api): plain TCP, TCP with ChaCha20-Poly1305 frames, and QUIC.
--
-- The files:
--   Prelude, Outcome, Act: lists of bytes and numbers, the results of the source (a value, an error or
--     a panic), and actions that pass a state on
--   Io, Io/Pipe: what the source uses of tokio, as a parameter with its documented laws, and an
--     instance of it in memory; Io/Listening: its listener, and how client and server tell `ready`
--   Std: what the source uses of Rust's standard library, written out: words and their bytes, slices,
--     from_utf8_lossy, formatting, the parsers of IPv4, IPv6 and socket addresses
--   Protocol: lib/src/protocol.rs (encode_address, parse_header, read_address), and the header that
--     handle_socks_client builds
--   Crypto: feature/tunnel/tcp-encrypted/src/crypto.rs; Crypto/Primitives holds the cipher and the key
--     derivation, parameters with laws, and Crypto/Toy a stand-in that meets them; Crypto/Rounds is
--     about single rounds of the relay loops, Crypto/Stream about whole loops; Crypto/Nonces is about the
--     calls of the cipher behind the frames; Crypto/Reading and Crypto/Untrusted are the inward loop on
--     bytes from anyone
--   Tunnel: feature/tunnel/api/src/lib.rs and the race of two relay loops; Tunnel/Plain, Tunnel/Encrypted
--     and Tunnel/Quic are feature/tunnel/tcp-plain, feature/tunnel/tcp-encrypted and feature/tunnel/quic
--     (each src/lib.rs), Tunnel/Acceptors and Tunnel/Connectors their
--     acceptors and connectors
--   Tunnel/Encrypted/Duplex: the relays of two encrypted ends, the network between them and the
--     applications behind them, as a step relation; HalfClose: a relay whose application closes
--   Tunnel/Quic/Frames: what quinn documents of streams; Tunnel/Quic/Endpoint: QuicConnector and
--     QuicAcceptor; Tunnel/Quic/Cert: feature/tunnel/quic/src/cert.rs; Tunnel/Quic/HostPort:
--     split_host_port; Tunnel/Quic/Relay: the rounds of its relay
--   Client: lib/src/client.rs; Client/Running and Client/Connecting are `run` and run_connector, which
--     choose the transport; Client/Completed is about their relays
--   Server: lib/src/server.rs; Server/Running is `run` and run_acceptor; Server/Request, Server/Status
--     and Server/Relaying put client and server together: the request, the answer, the start of the relays; Server/Stranger is
--     a session with a peer that has no key
--   Cli: bin/vs-vpn/src/main.rs, with the set-up and the verifier of certificates in Cli/Environment and
--     `main` itself in Cli/Main; Jni: android/rust-jni/src/lib.rs, whose statics are a record `World`,
--     and whose nativeStart is two steps, one for each critical section; Jni/Interleaved is the step
--     relation of these sections, Jni/Log the queue of log lines
--   Protocol/Typing, Std/Utf8/Bounds, Std/Address/Bounds: that what is made of bytes is bytes
--   Peer: core/socket-peer/src/lib.rs
--   The modules Inline are the tests inside the source files, as programs over pipes in memory, and their
--     runs; Std/Asserts the assertions that they use
--   The modules Tests run the definitions, and apply the theorems at concrete inputs.
--
-- Bytes are numbers, and a byte's bound is a hypothesis where it matters. Casts and counters keep
-- their wrap-around. A stream is an abstract state with the bytes that have arrived and those that
-- were sent. Random bytes, `TcpStream::connect`, and what a listener, a resolver, rustls, rcgen, quinn
-- and the file system answer are arguments.
--
-- Loops: the relays of Crypto run for a number of rounds, and answer `none` when it runs out; one
-- round more than there are bytes to read is enough, as the theorems on them state. The buffer of
-- read_exact_quic is filled in at most as many rounds as it is long. A relay of a tunnel is a schedule
-- that says which direction makes its next round, and answers `none` when the schedule ends first.
-- In the step relations a round is a step that is taken only where the bytes that it reads are there: a
-- read that lacks them waits, and nothing changes. A round is one step, with its writes.
--
-- Not modelled: the tests inside the source with an echo server or over QUIC, writes and reads that a
-- `select!` drops in the middle of a round, the scheduling of tasks, what tracing prints (the text of an
-- event is an argument of Jni), what lsof does with its arguments, reading the command line, what rustls
-- and rcgen do with their parameters, and the Android application, which is written in Kotlin.
pub mod Peer
pub mod Prelude
pub mod Outcome
pub mod Act
pub mod Io
pub mod Jni
pub mod Std
pub mod Protocol
pub mod Crypto
pub mod Tunnel
pub mod Server
pub mod Client
pub mod Cli

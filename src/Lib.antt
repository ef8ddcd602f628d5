-- ===== src/Lib.antt =====
-- A verification library for wfdef, a pluggable transport with website fingerprinting defenses.
--
-- The program runs a SOCKS5 server (common/socks5), over which tor names a bridge and the arguments
-- of a transport. A transport makes a handshake, which gives the keys of a link framing
-- (transports/defconn/framing) whose length masks come from a SipHash generator (common/drbg);
-- a replay filter (common/replayfilter) refuses a handshake that was seen before. Packets with
-- padding (transports/defconn/packet.go) travel in the frames; the defenses differ in what they send
-- when. transports/defconn is the base of front, tamaraw, wfgan and regulator; obfs4 and
-- scramblesuit pad bursts instead.
--
-- Prelude has the names that the modules share, the Boolean tests, lists and bytes over the native
-- numbers, results, queues, and exclusive or.
-- Drbg models common/drbg/hash_drbg.go and `IntRange` of common/csrand/csrand.go. SipHash is the
-- record `Sip` of a function with the length of its result, `Rand.Intn` is an argument.
-- Framing models transports/defconn/framing/framing.go. NaCl's secretbox is the record `Box`;
-- `BoxLaws` says what NaCl documents of it. A decoder's buffer is a byte string that goes in and
-- comes out. The uint16 and uint64 wrap as written.
-- Defconn has State for state.go, Packet and PacketType for the format and `MakePacket` of packet.go,
-- and Receive for `ReadPackets`: a loop on fuel over a switch, the fuel being one more than the
-- buffer's length, since each round takes bytes off the buffer. A `Link` is what the loop touches of
-- a `DefConn`. Copy models `ReadFrom`, its ticker routine and `Send` of defconn.go: `Step` lets the
-- three run in any order, with the packet that a routine holds between setting the state and the
-- channel; `Turns` are the runs in which each puts its packet before another runs, with the counting
-- of payloads by the reading side between. A put into the channel and the counting behind it are one
-- step, `written` does not overflow its int64.
-- Ntor models common/ntor/ntor.go, with Curve25519, Elligator and the hashes as records, and what the
-- random source gives as a list; Clamp says in arithmetic what the masks of a private key do. Handshake
-- below Defconn models handshake_ntor.go, with one reading of the clock in a call, and Connect the
-- loops of `clientHandshake` and `serverHandshake` of defconn.go, over a list of what the network
-- delivers; Read is `Read` and `MyRead` over such a list.
-- Uniformdh models common/uniformdh/uniformdh.go, with Go's big.Int as numbers.
-- ReplayFilter models replay_filter.go: the map is a function, the list a list, and the key is in
-- the function `hash`.
-- Socks5 has Args for args.go, Conn for the buffered connection under a `Request`, whose reads are a
-- list of what the network delivers one by one, and Handshake for socks5.go and rfc1929.go. The
-- target is a host and a port, not yet printed; goptlib's `Args` are a parameter. The deadlines are
-- not modelled but for the end of the reads.
-- Tamaraw models `ReadFrom` of transports/tamaraw/tamaraw.go, a slot, a window and a read being one
-- step each. The state is read twice in a slot; the model reads it once.
-- Regulator has Params for params.go, Packet for packet.go, itself the server's side of regulator.go,
-- and Client the client's, where a run is a list of events and the queue a parameter; the powers in
-- floating point are functions of a record, and the pacing of the server is left out.
-- Front models the padding of transports/front/front.go, `initFrontArgs` and two routines of
-- `ReadFrom`; its Queue is the library's queue as a parameter, Switch the switch of packet.go. The
-- times are arguments, and waiting for one is a step.
-- Wfgan models `sendRefBurst` and `sendRealBurst` of transports/wfgan/wfgan.go, with the bounds of the
-- tolerance rounded already, and its Switch the switch of packet.go; fuel is `toSend` or the buffer.
-- Its Turns are the turns of both sides, where the tuples of the Python service are arguments.
-- Randomwt models the talk of both sides in transports/randomwt/randomwt.go: a read and the draws of a
-- burst are one step, and `uniform n` stands for `utils.Uniform(0, n)`. The `out` of a side is its
-- `writeChan` with the wire; runs go on until a side ends, and `canSendChan` takes every signal at
-- once, where the code's holds one and a routine with another waits.
-- Obfs4 models `makePacket`, `padBurst` and `Write` of transports/obfs4, whose paranoid mode runs on a
-- list of samples; its Switch is the switch of packet.go. Scramblesuit models the first three
-- of transports/scramblesuit/conn.go with the cipher and the MAC as a record `Crypto`. Its
-- Receive is `readPackets`, on fuel of more than two rounds for each byte of the buffer, and its
-- Handshake handshake_uniformdh.go, where a response comes with the memory behind it.
-- Tests has concrete links, filters and clients.
--
-- Not modelled: the session tickets of scramblesuit, the transports obfs2, obfs3 and meek_lite,
-- certificates, state files, factories and argument parsing, the teardown of randomwt, the reader of
-- front, the null transport, elliptic curves, probability tables, logging and the process around it.
pub mod Prelude
pub mod Drbg
pub mod Framing
pub mod Defconn
pub mod ReplayFilter
pub mod Socks5
pub mod Tamaraw
pub mod Regulator
pub mod Front
pub mod Randomwt
pub mod Wfgan
pub mod Ntor
pub mod Uniformdh
pub mod Obfs4
pub mod Scramblesuit
pub mod Tests

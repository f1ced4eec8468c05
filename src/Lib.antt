-- ===== src/Lib.antt =====
-- The Rust core of nautilus-futu (crates/futu/src): a client of the Futu OpenD gateway. Frames go
-- over TCP; a connection numbers and encrypts what it sends; a dispatcher hands what comes to the
-- request that waits for it or to the listeners of its protocol; a heartbeat and a receive loop run
-- beside the calls; the request functions for quotes and trade stand on top, and a class for Python
-- above them.
--
-- Parts and files (source paths are under crates/futu/src):
--   Prelude, Prelude/*            Boolean tests, lists over native numbers, 32-bit words, maps with
--                                 32-bit keys, text as bytes
--   Config                        config.rs: FutuConfig
--   Protocol/Header               protocol/header.rs: PacketHeader, new, encode, decode, verify_body
--   Protocol/Codec                protocol/codec.rs: FutuCodec's decode (helpers peeked,
--                                 with_body_len, take_frame, finish for its parts) and encode
--   Protocol/Encryption           protocol/encryption.rs: AesEcbCipher's encrypt and decrypt
--   Client/Dispatcher             client/dispatcher.rs: Dispatcher's methods, one function each
--   Client/Connection             client/connection.rs: FutuConnection's methods; send is send_next
--   Client/Keepalive              client/keepalive.rs: send_keepalive, and the loop as beat and beats
--   Client/Init                   client/init.rs: init_connect, with generated/init_connect.rs
--   Client/Session                client/mod.rs: FutuClient; request (up to its await), send_only for
--                                 send, and the rounds of the two tasks that init starts
--   Client/Interleave             client/mod.rs: request in its three steps, with other tasks between
--                                 them; the stages of requests there, and the records of what orders
--                                 send in Trade/Order/Runs, are notes for the theorems, which the code
--                                 does not keep
--   GlobalState                   client/init.rs: get_global_state
--   Generated/*                   generated/*.rs: the messages that the requests carry, and in
--                                 Generated/Answer those of the answers and pushes that Python reads;
--                                 Generated/Enums the enumerations of common.rs, qot_common.rs and
--                                 trd_common.rs, each in a file of its name
--   Request                       the part that all request functions share; Request/Session is the
--                                 client as they see it, over a session
--   Trade/*, Quote/*              trade/*.rs and quote/*.rs: the request functions; Trade/Order/Runs
--                                 runs orders over a session
--   Python                        python/client.rs: PyFutuClient's connect, disconnect, start_push and
--                                 poll_push (with a decoder that is an argument)
--   Python/Object                 Python's None, numbers, strings, lists and dicts
--   Python/Push                   python/push_decode.rs; poll_push with its decoders is poll_object
--   Python/Pipeline               the channels of subscriptions, the forwarders and poll_push, over a
--                                 session of the client
--   Python/Shape, Python/Contract the types of Python's objects, and the keys that the Python package
--                                 (nautilus_futu, from the root) reads
--   Python/Methods/*              python/client.rs: the methods that send a request, and their dicts;
--                                 a loop that makes dicts is a function <method>_item, or is named
--                                 for the list that it fills
--   Tests/*                       the theorems at concrete inputs
-- Modules below these hold proofs and are named for what they prove.
--
-- How state corresponds: a struct is a record, an error enum a data type. Each method is a function
-- from the state to its result and the next state. What the environment decides is an argument: the
-- outcome of a write, what the framed reader yields, the clock, which receivers are closed. A tokio
-- channel is known by the number of its sender; completing, delivering to and dropping senders are
-- effects that the functions return. A session is a list of events, each one call or one round of a
-- task, in the order in which they take the locks; so interleavings are the lists. A byte buffer is
-- the list of its unread bytes. Serial numbers wrap at 2 ^ 32, and the header keeps 32 bits of a
-- length.
--
-- Parameters, for code of other crates: Sha1 (a digest has 20 bytes), Aes128 (encryption and
-- decryption of a block undo one another and keep its length), InitCodec and Wire (prost's encoders
-- and decoders, with no law), PushDecoders (prost's decoders of pushes, with no law), Requester (the
-- client as the request functions see it, with no law), packet_of (prost's decoder, as far as it reads
-- back the packet id that was encoded in an order), and the type F of f64.
--
-- Fuel: Stream.drain applies decode to a buffer as far as it goes. A frame has at least 44 bytes, and
-- the fuel is one more than the buffer has bytes.
-- Everything else is structural recursion.
--
-- Not modelled: log messages; the ticker of the heartbeat (a beat is an event) and the cancelling of
-- a task inside a round; steps of other tasks between the awaits of a call, except of request
-- (Client/Interleave), or of a round; partly written frames after a failed write; the wire format of
-- protobuf, and messages and fields that nothing reads; the runtime and the interpreter lock of the
-- Python class; the Python package, build scripts. tokio_util's framed reader and writer are not
-- modelled: theorems on streams are about decode on a growing buffer. Python's own objects stand for
-- those that pyo3 makes.
pub mod Prelude
pub mod Config
pub mod Protocol
pub mod Client
pub mod Generated
pub mod Request
pub mod Trade
pub mod Quote
pub mod GlobalState
pub mod Python
pub mod Tests

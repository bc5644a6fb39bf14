-- ===== src/Lib.antt =====
-- A model of the core of securelink, an encrypted session layer with streams, remote calls,
-- publish/subscribe, file transfer and heartbeats over it, and of the guards in front of it.
--
-- The parts, and how they meet. A session seals each message as a record (src/sl_record.c) under
-- a nonce made of the session's IV and a counter (src/sl_nonce.c). Records arrive as a stream of
-- bytes, which src/sl_recv_buf.c cuts into records again; bytes to be sent wait in
-- src/sl_send_queue.c or src/sl_ring.c. Inside the records travel stream frames
-- (src/sl_stream_frame.c) under the windows of src/sl_flow_control.c, remote calls
-- (src/sl_rpc_msg.c) and pub/sub messages (src/sl_pubsub_msg.c); beacons (src/sl_beacon.c,
-- src/sl_beacon_codec.c) are sealed on their own. The opening of a session has its own messages
-- (src/sl_handshake_msg.c), lists of offered versions and ciphers (src/sl_version.c,
-- src/sl_cipher.c) and extensions (src/sl_extensions.c); a ticket (src/sl_session_ticket.c)
-- resumes one. Files travel as metadata and chunks (src/sl_file_meta.c, src/sl_file_chunk.c). On
-- top of these stand the services. src/handshake_state.cpp and src/connection_state.cpp say which
-- messages may come when, and src/session_manager.cpp keeps the sessions and their tickets.
-- src/stream_multiplexer.cpp keeps the streams of a session, each with its state
-- (src/stream_state.cpp) and its windows. src/rpc_dispatcher.cpp answers calls.
-- src/pubsub_broker.cpp delivers what is published: the subscriptions are in src/topic_trie.cpp,
-- the rights in src/topic_acl.cpp, and src/sl_topic.c matches topics with filters.
-- src/file_receiver.cpp puts a file together from its chunks, with the map of
-- src/sl_resume_map.c. src/sl_token_bucket.c limits rates, src/sl_dos_guard.c connections and
-- src/sl_lockout.c failed attempts.
--
-- Which file models which part:
--   Common        shared names, Boolean tests, lists over the native numbers, bit operations, and
--                 Outcome, the result of a C function
--   Bytes         the big-endian fields and the reads of a received buffer
--   Memory        memcpy and memmove into an owned buffer
--   Crypto        Aead: the contract of src/sl_aead.c; Nonce: src/sl_nonce.c
--   Wire          the formats, each with its theorems below it. Record: src/sl_record.c; Beacon:
--                 src/sl_beacon.c and src/sl_beacon_codec.c; BeaconAck: src/sl_beacon_ack.c and
--                 src/sl_beacon_ack_codec.c; Ticket: src/sl_session_ticket.c; Frame:
--                 src/sl_stream_frame.c; Rpc: src/sl_rpc_msg.c; RpcMethod: src/sl_rpc_method.c;
--                 Pubsub: src/sl_pubsub_msg.c; Offer: src/sl_version.c and src/sl_cipher.c;
--                 Extensions: src/sl_extensions.c; Handshake: src/sl_handshake_msg.c and the alerts of
--                 src/sl_alert.c, src/sl_alert_ext.c and src/sl_close_notify.c; FileMeta:
--                 src/sl_file_meta.c; FileChunk: src/sl_file_chunk.c and src/sl_crc32.c; Readers: the
--                 readers taken together
--   Buffer        RecvBuf: src/sl_recv_buf.c; Ring: src/sl_ring.c; SendQueue: src/sl_send_queue.c;
--                 Circular: the copies that the last two share; Fifo: the queue that Ring implements
--   Limit         Flow: src/sl_flow_control.c; TokenBucket: src/sl_token_bucket.c; Backoff:
--                 src/sl_backoff.c; Deadline: src/sl_deadline.c
--   Guard         Table: the hash tables of the guards; Lockout: src/sl_lockout.c; Dos:
--                 src/sl_dos_guard.c
--   Ident         StreamId: src/sl_stream_id.c; RpcId: src/sl_rpc_id.c; Hexstr: src/sl_hexstr.c;
--                 Varint: src/sl_varint.c
--   Session       Handshake: src/handshake_state.cpp; Connection: src/connection_state.cpp; Manager:
--                 src/session_manager.cpp; Phase: src/stream_state.cpp; Dispatcher:
--                 src/rpc_dispatcher.cpp; Mux: src/stream_multiplexer.cpp and src/sl_priority.c, its
--                 state, its sending and its receiving half, and the runs of its calls
--   Topic         the topics of src/sl_topic.c; Trie: src/topic_trie.cpp; Acl: src/topic_acl.cpp;
--                 Broker: src/pubsub_broker.cpp
--   Transfer      ResumeMap: src/sl_resume_map.c; Receiver: src/file_receiver.cpp
--   Tests         runs, and the theorems at concrete inputs
-- A function of a module models the C function of its name without the prefix `sl_..._`, or the
-- one that the comment above it names.
--
-- Conventions. A pointer with a length is a list of bytes; a null pointer has no counterpart, so
-- the checks for one are left out. A function that fills a caller's buffer returns the bytes
-- that it writes, with the capacity as an argument. `ok` is success, `fail` the return value -1,
-- and `fault` a read outside the input, which the C code would not notice. What a failed call
-- leaves in its out parameters is not modelled. Unsigned arithmetic that can wrap is written
-- with its modulus; the `int` total of `sl_send_queue_flush` is its 32 bits. What the clock
-- says, whether the allocator has memory, what `send` answers and what the cipher computes are
-- arguments. A structure that a function changes is an argument and a result. Freeing, logging
-- and name tables are left out. Each method of a class that locks its mutex is one step, so that
-- calls of several threads are a sequence of steps, and the broker and its trie take their steps
-- together; std::unordered_map is an association list with one binding of a key, std::string a
-- list of characters, and an exception a result of its own. The digest of a file and the answers
-- of the system to writes are arguments.
--
-- Bounds. Each loop of the model follows a list or counts down, the loop of
-- `sl_send_queue_flush` the list of the answers of `send`; two need fuel. That of
-- `sl_extensions_decode` gets as much as the extensions have bytes: each round uses up four of
-- them. Those of src/sl_varint.c get ten rounds, one for each byte of the longest number of 64
-- bits. Sizes are assumed below 2 ^ 63 where a sum of them must not wrap, as an allocation's
-- are, and a table has 1024 buckets.
--
-- Not modelled: the wrappers of OpenSSL (the AEAD is a parameter with laws, of which
-- Crypto/Aead.antt gives an instance), files, sockets, signals and logs, the key-value store, the
-- services in src/*.cpp that are not named above, and the tests.
pub mod Common
pub mod Bytes
pub mod Memory
pub mod Crypto
pub mod Wire
pub mod Buffer
pub mod Limit
pub mod Guard
pub mod Tests
pub mod Ident
pub mod Session
pub mod Transfer
pub mod Topic

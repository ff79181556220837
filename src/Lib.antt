-- ===== src/Lib.antt =====
-- A model of muxtls, streams multiplexed over one TLS connection, and its correctness.
--
-- The program has two crates. muxtls-proto is the wire format: variable-length integers and nine
-- frames. muxtls is the runtime: a connection has a reader, a writer, a cleanup and a supervising
-- task, which share the states of the streams, the writer's queues and the receive windows. The
-- reader decodes frames and charges their payloads to the windows; the application consumes them;
-- the writer announces new credit, and sends control frames and data within the credit of the
-- peer. An endpoint, with a TLS configuration, makes the connections.
--
-- Base: Booleans, lists, results, bit operations, association lists and lists of identifiers.
-- Proto: muxtls-proto/src. Bytes has the buffers, VarInt has varint.rs, Frame has frame.rs and
-- error.rs, and Utf8 has what the code uses of str: the check of from_utf8 and is_char_boundary.
-- Error: muxtls/src/error.rs. Limits: muxtls/src/limits.rs. Flow: muxtls/src/flow.rs.
-- Connection: muxtls/src/connection.rs. State has the records, Writer has WriterState, and
-- Writer.Next has next_frame. Receive has the receive half of a stream. Shared has
-- ConnectionShared: Streams opens, resets, retires and closes, Frames has handle_incoming_frame,
-- Handles has the drop of the last handles, and Send has the write of a chunk. Handle has the
-- methods of Connection, and Tasks has a round of each task. Payload has max_stream_payload, whose
-- search halves an interval below 2^32, so 32 rounds end it. EndToEnd joins a writer and the
-- reader of the other side. The children of a module prove what their names say.
-- Stream: muxtls/src/stream.rs. Writing has SendStream and Reading has RecvStream. A future is its
-- state: a write that is under way has the stages of queue_stream_chunk, eight, so eight steps are
-- a poll, and the future of a read has none. poll_read takes two rounds for each chunk that waits,
-- and two more.
-- Config: muxtls/src/config.rs, over rustls, rcgen and the platform, whose types and operations are
-- the record of Tls. Roots has what a root store holds, Client and Server what a configuration is.
-- Endpoint: muxtls/src/endpoint.rs and Connection::new. A timeout is a Boolean, the other outcomes of
-- tokio and TLS are the record Network, and the future of connect is what it holds.
-- Tests: runs on concrete inputs, and the theorems at such inputs.
--
-- A byte buffer is a list of numbers. A mutable value is passed on explicitly, and an operation
-- under a lock is one step. usize has 64 bits. A `u64` that may wrap is written with its
-- modulus. A reference to a stream's state is its identifier, looked up in a heap. A hash map is
-- an association list, whose order stands for any order of iteration. The loop of next_frame is
-- unrolled to the two rounds that it can take without waiting; the loop over the ready streams
-- takes as many rounds as there are ready streams. An `expect` of next_frame that fails, and a
-- subtraction of usize in it that overflows, is the turn `panics`. The bound on the permits of a
-- semaphore is an argument. tokio's semaphores are a parameter of Connection.Receive and
-- Connection.Shared, with the laws of Connection.Permits. Writer leaves them out: a chunk
-- carries the number of its permits, and Shared gives back those of the chunks that it drops.
-- Wake-ups are left out. The text that an error displays is an argument of the reader's task,
-- whose state after an error is the one from before the frame.
--
-- Not modelled: TLS, sockets and timers themselves, the spawning of the tasks, logging, and the text
-- of errors: they are other libraries' or have no result that the code uses.
pub mod Base
pub mod Proto
pub mod Error
pub mod Limits
pub mod Flow
pub mod Connection
pub mod Tls
pub mod Config
pub mod Endpoint
pub mod Stream
mod Tests

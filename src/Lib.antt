-- ===== src/Lib.antt =====
-- Verification of the market-data fan-out harness (harness/include, harness/src).
--
-- A producer writes native messages into a shared-memory ring; a sender reads them, encodes them
-- and fans them out as datagrams or over a Unix stream; a receiver decodes them, drops duplicates
-- and publishes the rest into another ring, which a consumer reads.
--
-- Util models harness/include/util.h as far as it is pure: is_power_of_two.
--
-- Dedupe models harness/include/dedupe_window.h. Window is the class with its bitmap as a list of
-- 64-bit words, Counters its counters; observe, test, set, clear, slide_to and advance_contiguous
-- are the methods, and new_window the constructor, with none for std::abort. The loop of slide_to
-- runs as often as the difference of its bounds. The loop of advance_contiguous runs on fuel of one
-- more than the size of the window: each round clears one of its bits. Numbers are taken modulo
-- 2 ^ 64, as uint64_t is; the theorems are about numbers that stay a window below 2 ^ 64, and say so.
-- deliveries folds the decision of publish_frame in harness/src/receiver.cpp over a stream.
--
-- Message models harness/include/message.h: the structs, the type numbers and validate_frame. A
-- double is the number of its IEEE 754 bits.
--
-- Wire models harness/include/wire.h: Codec pairs what a Writer puts with what a Reader gets, Fields
-- has the field lists, Frame has encode and decode. NativeLayout stands for the layout of the structs
-- in memory, which the compiler chooses: loads and stores with the laws of memcpy.
--
-- ShmRing models harness/include/shm_ring.h. Ring is the shared memory with the slots and the
-- registry of readers; create and attach are the two uses of Ring::attach, then detach, publish,
-- read and set_backpressure. The loop in which publish waits is a recursion on the registries that
-- it sees, the last one being the one after which its deadline has passed. write is what happens
-- under the lock of a slot. Mutexes, clocks and the environment are parameters. Holds, Recall,
-- Frames and History say what can be read; Registry, System, Safe and Lossless interleave a producer
-- and its readers; Late and Crash are about a reader that comes late and a producer that dies.
--
-- Metrics models harness/include/samples.h (sample) and harness/include/metrics.h (Accumulator with
-- record_latency and report). Floats stands for the arithmetic of double and for std::sort; what is
-- used of the sort, that it keeps the length and the elements, is a hypothesis of the theorem.
--
-- Multiplex models harness/include/multiplex.h: wrap and unwrap, the order of the keys and
-- Streams::get, on an association list in place of the std::map. Its streams are of any type.
--
-- Transport models harness/include/stream_transport.h: transfer in its two directions, send_frame and
-- receive_frame. A round of the loop is an Event; the list of them stands for the clock, poll and the
-- socket, and at its end the deadline has passed. unix_socket is not modelled.
--
-- Fec models harness/include/fec.h. Field is the arithmetic of GF(256) (mul, inverse, coefficient),
-- with its laws in Field/Laws and a solver of ring equations in Field/Ring; Envelope the header and
-- the padded blocks; Encoder the class (add, close); Solve the elimination of try_recover, on rows
-- that carry their right-hand sides; Decoder the generations with slot, ensure, finalize, expire and
-- retire_all, Decoder/Recover try_recover and Decoder/Receive receive; Stats the statistics. The
-- callback that publishes is a function on a state of its own. The loops of mul and inverse run on
-- fuel 8, the number of bits of a byte. Solve/Reduce and Solve/Correct are about
-- the elimination of Cauchy matrices up to factors, and Recovery about the encoder's rows in the
-- decoder's system. A lost frame is one whose flag in `received` is not set.
--
-- Sender models parts of harness/src/sender.cpp. Fanout is one destination of the class with its
-- thread: a step is a call of enqueue, a step of the thread under the lock, the end of
-- flush_batch_direct with its result, or finish, so that a list of events is any interleaving.
-- Batch is the batch of datagrams (queue_datagram, queue_or_flush, flush_batch) and flush_pending with
-- its loop that compacts a vector in place. The clock and the sending of a batch are functions on a
-- state of their own.
--
-- Receiver models publish_frame of harness/src/receiver.cpp, the callback of the decoder, for the stream
-- of a key: Session is what it changes, receive_round the datagrams of one round of the loop, and
-- receive_all the rounds, each of which first expires old generations. The ring is a parameter.
-- Fec/Decoder/Receive/Keeps is about the state of the callback, which ties the decoder to
-- the duplicate filter.
--
-- Consumer models the read loop of harness/src/consumer.cpp on the list of what Ring::read gave in each
-- round; the map of accumulators is an association list, searched with the order of the keys.
--
-- Not modelled: harness/include/shm_segment.h, the read loop and the options of the sender, the
-- producer, the report and the options of the consumer, the socket loop and the options of the
-- receiver, and the scripts.
pub mod Common
pub mod Util
pub mod Dedupe
pub mod Message
pub mod Wire
pub mod ShmRing
pub mod Metrics
pub mod Multiplex
pub mod Transport
pub mod Fec
pub mod Sender
pub mod Receiver
pub mod Consumer

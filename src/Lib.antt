-- ===== src/Lib.antt =====
-- A verification library for genet, a graphical network analyzer written in Rust.
--
-- Readers produce layers of raw bytes. The store (genet-kernel) numbers them as frames and gives
-- them in batches to a pool of parallel workers, then to one serial thread that puts the batches
-- back in order; both run the decoders of package/ on each frame. The ordered frames are appended
-- to the store, filtered, and written to outputs. Decoders see layers, attributes and tokens
-- through a C interface (genet-abi) with helpers of genet-sdk.
--
-- Kernel (genet-kernel/src)
--   Frame         frame.rs
--   Serial        decoder/serial.rs: `receive` is one message to the thread
--   Store         store.rs: `Shared` and `Loop` are the state of the event loop, `Event` the
--                 callbacks; Store/Filtering is `process_filters`, Store/Writing `process_output`,
--                 Store/EventLoop the commands and the loop, Store/Input an input's thread
--   Dispatcher    decoder/dispatcher.rs: `round`, `rounds`, `visit` and `passes` are the loops of
--                 `process_frame`, from the inside out
--   Pipeline      the event loop, the parallel workers and the serial thread as one step relation;
--                 Pipeline/Decoding with the dispatchers that they run
--   ArrayVec      array_vec.rs
--   Profile       profile.rs; Session is session.rs with the inputs of store.rs
-- Abi (genet-abi/src)
--   Token         env.rs and token.rs
--   Slice, Variant, Attr, Layer   the file of that name; Result is `io::Result`
--   Vec           vec.rs; Boxes is decoder.rs, reader.rs, writer.rs and error.rs; Metadata is
--                 metadata.rs and context.rs
-- Sdk (genet-sdk/src)
--   Cast          cast.rs, with cast.rs of genet-abi; Signed is about signed numbers, floats and
--                 texts
-- Packages (package/)
--   Tcp, Udp, Ipv4, Ipv6, Eth, Arp, Ntp   package/tcp/tcp/src/lib.rs and so on; Reading and Chain are
--                 about decoders together
--   TcpStream     package/tcp/tcp-stream/src/lib.rs: TcpStream/Worker is the map of streams and
--                 `decode`; Stalling a machine without a buffer, Demultiplexing many streams
--   PcapFile      package/pcap-file: Reader and Writer; Records, Written, Copies and Feeding are
--                 about files that are written and read
--   GenetFile     package/genet-file: the format, Writer and Reader; Tables, Represents, Entered and
--                 Ended are about the writer's tables, entries and file, Reading and Copies about
--                 reading it back
-- Filter (genet-filter/src)
--   Value         variant.rs
--   Expr          ast.rs, context.rs and `Filter::test`; Topmost and Meaning are about tokens,
--                 Stored is a store with such filters
--   Parser        parser.rs behind the grammar of syntax.pest; Parser/Trees is what it takes from
--                 other crates, Grammar and Grouping are about the trees of the grammar
--   Unparser      unparser.rs
-- Base            lists, maps, bytes and integers of the other modules
-- Tests           concrete runs, and each theorem applied to one
--
-- Conventions. A map is an association list with one entry for each key. `u32` counters wrap. A
-- channel is a list with its oldest message first. A filter is a value with a test on frames, a
-- decoder pool a function from its state and a frame, an output a state with a fallible write: all
-- are arguments. A text that the code holds as a token is written as the text: module
-- Token is about the two. An `f64` is its bit pattern, and its cast to an integer
-- an argument. Reading an integer off a cursor, which the crate `byteorder` does, is the record
-- `ByteOrder` of operations with their documented behaviour. In the filter the record `Numbers` is
-- `num_bigint` and the operations on an `f64`, `Readers` the crates that the parser calls, with
-- the grouping that pest documents for up to three operands with operators of its table, and
-- `Writers` the formatting. Of an error that crosses the C interface only the description is left.
-- The reader and the writer of capture files take `Input` and `Sink`, the operations of the standard
-- library and of `byteorder` on a file. Arithmetic on `u32` wraps as in a release build.
-- `Bincode` is the crate of that name, with what it serializes read back, and `Allocator` the
-- memory that C vectors live in, counted in bytes. Sums and products of a `usize` and of a `u64`
-- wrap at 2 ^ 64.
--
-- Loops. The serial thread's inner loop takes an entry out of its map at each turn and gets one
-- unit of fuel more than the map has entries. The loops of `process_filters` and `process_output`
-- get one unit more than there are frames, and go forward by at least one frame at each turn. The
-- dispatcher's loops get one unit more than there are runners, of which each turn but the last uses
-- one up. The loop over the TCP options runs on fuel that its theorems speak of.
--
-- Reading a capture file goes record by record; the loop of `read` makes at most 65535 turns, and
-- the thread of an input as many turns as its theorem says.
--
-- Fetching from a TCP stream goes through its slices one by one. An iterator over a C vector gets
-- one turn more than the vector has elements.
--
-- Not modelled: the serialized metadata and the destructors of the C interface, the builders of
-- attributes and layers, the bindings to Node and to libpcap, and the user interface.
mod Tests
pub mod Base
pub mod Abi
pub mod Sdk
pub mod Packages
pub mod Filter
pub mod Kernel

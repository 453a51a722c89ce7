-- ===== src/Lib.antt =====
-- The verification library of executor-hotpath: a C++ executor that a poller wakes over a Unix
-- socket. A wake is a frame, a four-byte big-endian length and a JSON body. The executor decodes
-- it, answers with an ack, and hands the message to the fire path, which checks the price and the
-- kill switch, picks an order template and calls the dispatch callback.
--
-- Each part of the program is a module here.
--
-- - Wire: the types and constants of include/hotpath/protocol.hpp, with the source's field names.
-- - Double: a double is any type with the operations that the code uses; IEEE 754, std::to_chars
--   and std::from_chars of a double are its parameters.
-- - Json: src/json.cpp and src/json.hpp. Json.Reader is the pull parser, whose state is a record
--   with the text from pos_ on; a method that returns false is an outcome with the error kept.
--   Json.Strings, Json.Numbers and Json.Doubles are its scanners, Json.Utf8 the codec, and
--   Json.Writer and Json.Doubles the writers.
-- - Protocol: src/protocol.cpp. Protocol.Frame is the length prefix, Protocol.Encode both encoders,
--   Protocol.Decode both decoders with Protocol.Decode.Fields for the members of a body.
-- - Pricing, Orders, KillSwitch, SpscRing: src/pricing.cpp, src/orders.cpp, src/killswitch.cpp and
--   include/hotpath/spsc_ring.hpp. The file of the kill switch is explicit state; a call of the
--   ring is one step.
-- - Executor: src/executor.cpp. Executor.Socket is read_exactly and send_frame over a script of
--   what the system calls return, Executor.Serve is serve_connection, and Executor itself is
--   handle_fire. The clocks and the file of the kill switch are inputs of a round.
--   Executor.Lifecycle is listen, stop, serve_one_connection, serve_forever and the destructor,
--   over the descriptors of the process and the answers of the system calls.
-- - Telemetry: src/telemetry.cpp. Telemetry is record and write_batch over a parameter that stands
--   for SQLite; Telemetry.Writer is the writer thread, one step for each access to the ring, between
--   which the calls of the read loop and the close come in at any point. Telemetry.Opening is open.
--   Telemetry.Stored says what SQLite promises of a transaction, and what the table then holds.
-- - Signer: src/signer.cpp over a parameter that stands for OpenSSL; Signer.Loading is load.
-- - Program: run of src/main.cpp, as its exit code and the parts that it starts and closes.
-- - Bench: bench/. Bench.Percentile is percentile.cpp, Bench.Poller the client of poller_client.cpp,
--   Bench.Options and Bench.Runs the options and the loops of bench_main.cpp. Bench.Poller.Exchange
--   joins the client and the executor.
--
-- A string or a buffer is a list of bytes, and a byte is a number below 256 of the native ℕ; an
-- integer of the wire is the ℤ of Base.Int with its 64-bit range as the predicate IsI64. Counters
-- of the ring wrap at 2^64. Loops over input run on fuel: the loop of the reader over a string has
-- one round for each byte that is left and one more, and so have the loop over the members of a
-- body and the loop over the price ranges, each round of which takes at least one byte.
--
-- Not modelled: the clocks, the handlers of the signals, what
-- is printed or written to a CSV file, the throwaway key of the benchmarks, and the tests. A
-- peer that stays silent without closing is a read that does not return, so the model has no
-- step for it; the memory orders of the ring are taken as given.
pub mod Base
pub mod Bench
pub mod Double
pub mod Wire
pub mod Json
pub mod Protocol
pub mod Pricing
pub mod Orders
pub mod KillSwitch
pub mod Executor
pub mod SpscRing
pub mod Telemetry
pub mod Program
pub mod Signer
mod Tests

-- ===== src/Lib.antt =====
-- MCPWatch watches the messages between an MCP client and its server. A transport
-- (internal/transport) sits in the stream, passes the bytes on and cuts texts out of them; the parser
-- (internal/engine/parser.go) makes a message of each text; the main loop (main.go) hands the messages
-- to the correlator (internal/engine/correlator.go), which joins responses with their requests, to the
-- store (internal/storage) and to the hub of websocket clients (internal/server/hub.go). An alerter
-- (internal/alert) reads the store from time to time and sends alerts.
--
-- Base: bytes as lists of numbers, integers, instants, channels, float64 as a parameter. A machine
--   integer keeps its wrap-around where it can come to that: `% 2 ^ 32` in the hash, `wrap64` in sums.
-- Engine: Message and Json are internal/engine/message.go and the values of encoding/json. Parser is
--   internal/engine/parser.go (`parse_jsonrpc` is `ParseJSONRPC`). Correlator is
--   internal/engine/correlator.go (`process` is `Process`).
-- Transport: StreamBuffer is internal/transport/ebpf_parser.go (`extract_json`, `extract_lines`),
--   Socket is socket.go (`write` is the interceptor's `Write`; Connection has `handle_connection` with
--   its two copies and the loop of `Start`), Proxy is proxy.go (`body_read` and `stream_read` are the two
--   `Read` methods, RoundTrip the transport's, Serve is `Start`), Ebpf is ebpf_linux.go (`listen` is the
--   loop of `Start`, Attach what comes before it, and ebpf_stub.go), Tracer is bpf/tracer.c
--   (`trace_write`, `trace_read_enter`, `trace_read_exit`), Stdio is stdio.go (`scan_input` with
--   `stdin_line`, `stdout_line` and `stderr_line` are its loops over a whole stream; Tee has the same
--   loop read by read, with what the TeeReader copies; Session is the three of them side by side, and
--   Command the start of the command). Cutter is the loop that they share; Lines, Space and Wire are its
--   newline cut, the trimming of white space, and the hand-over of a text to the parser and of a message
--   to the channel. Defer is the order of deferred calls.
-- Server: Hub is internal/server/hub.go (`register`, `unregister`, `broadcast`, `client_count`). Http is
--   internal/server/server.go (`serve` is a request from the mux on), over the store as the interface
--   Storage.Api, of which `badger_api` is the program's instance. Websocket is `handleWebSocket`.
-- Metrics: internal/metrics/metrics.go (`record_metrics`), as the list of its updates.
-- Storage: internal/storage/badger.go. Queue is `Insert` and the loop of `runDrain`, with the flush as
--   a parameter; Flush is the transaction of `flush`; Lifecycle is `New`, `GetStats` and `Clear`; Key is
--   the key of a message; Query is `QueryAll` and `QueryRecent`. Timeline is the list in the order of
--   time and of ids that the database of messages stands for: Entries has the entries that stand for it,
--   Batch and History what `flush`, `Clear` and `New` do to it and to the counts, Runs any run of them, and Stored what is
--   left of flushes that are not refused.
-- Alert: internal/alert/alert.go (`check`, `start`; Webhook is `fireAlert`).
-- App: Flags is main.go's command line (`configure`); Config is main.go from there to the choice of the
--   transport (`load`, `select`); Start is what it starts then (`start_main`); Loop is the loop at its
--   end (`handle_message`), with the goroutines of the store and the hub as steps beside it; Program is
--   that loop behind the channel of messages that a transport fills (`program_step`). Tracing is
--   internal/tracing/tracing.go (`init_tracer`).
--
-- Time is a clock that is read: a function that calls `time.Now` takes a clock and returns it with one
-- more reading. Instants are nanoseconds since Go's zero time, so that a zero `time.Time` is 0.
--
-- The cutter loop runs on fuel, one more than there are bytes in the buffer; every cut takes at least
-- a byte, and Transport.Cutter shows that more fuel changes nothing. Nothing else runs on fuel.
--
-- A method of the hub or of the correlator holds its lock for the whole of its work, so that it is one
-- step, and a run is any list of steps. Where Go panics a step has no result. The keys of a map are
-- listed in some order.
--
-- Parameters of the model are encoding/json and `fmt.Sprintf("%v", …)` (Engine.Json.Codec), float64
-- (Base.Float.Float64), BadgerDB (Storage.Flush.Badger) and the encoding of what it holds
-- (Storage.Flush.Coding), the clock, what connections and the perf ring return, and, for the alerter,
-- the answers of the store. OpenTelemetry is a log of the calls that the program makes.
--
-- Each change of the store is one step. The source does not order a `Clear`, which an HTTP request
-- makes, and a `flush` by a lock; runs in which the two overlap are not modelled. The records of the
-- tracer go to the reader of the ring in order and without loss; the loop's answer to lost samples is
-- modelled, but not when they are lost. The mux redirects a path that is not clean, as net/http does.
--
-- Two channels of the program drop what they have no room for: that of the messages holds 1000, the
-- store's queue 4096. The entries of the database are those of which no time to live has ended.
--
-- Not modelled: what sockets, HTTP, processes and the kernel do, which is given by their answers; the
-- loaders that bpf2go generates from tracer.c; the text of an alert; logging; the dashboard's page.
pub mod Base
pub mod Engine
pub mod Transport
pub mod Server
pub mod Alert
pub mod App
pub mod Storage
pub mod Metrics

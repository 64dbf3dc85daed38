-- ===== src/Lib.antt =====
-- A verification library for req, an HTTP client in Go: its HTTP/2 layer (internal/http2), the
-- chunked transfer coding of its HTTP/1 layer (internal/chunked.go), how the transport (transport.go)
-- shares the connections of a host, and the redirect policies (redirect.go).
--
-- The Framer turns the bytes of a connection into frames and back. The client reads with `ReadFrame`
-- and writes with one method for each frame type; the windows of flow control decide how much data
-- either side may send. The DATA frames of a stream fill a pipe, from which the reader of the body
-- takes the bytes; over HTTP/1 the chunked reader takes them from the connection. A request that has
-- no idle connection asks the transport for a dial, and waits in a queue if its host has as many
-- connections as the limit allows.
--
--   Base                  numbers as Booleans tests read them, lists, integers, big-endian words
--   Http2.Errors          internal/http2/errors.go: error codes, and the errors of the framer
--   Http2.Frame           internal/http2/frame.go: frames, headers, flags; http2/priority.go and
--                         http2/setting.go. Frame.Settings has the methods of SettingsFrame and
--                         Frame.Parse the frame parsers, one function each
--   Http2.Framer          internal/http2/frame.go: the type Framer and ReadFrame. Framer.Write has
--                         the Write methods. Wire and Delivery are about what the two sides agree on,
--                         RoundTrip, Control, SettingsFrames and HeaderBlocks about one kind of frame
--                         each, Inversion, Validity, Order and Progress about the frames read
--   Http2.Names           internal/http2/http2.go: validWireHeaderFieldName
--   Http2.Meta            internal/http2/frame.go: MetaHeadersFrame and readMetaFrame, over the frames
--                         that read_frame returns. Fields says what its fields should be, Gathered
--                         and Guarantee compare those returned with it; Total is on the loop's end
--   Http2.DataBuffer      internal/http2/databuffer.go: the chunked buffer of a stream's body. View
--                         has its content and invariant, Append is Write, Drain is Read, and Queue
--                         compares the buffer with a queue of bytes
--   Http2.Pipe            internal/http2/pipe.go: the pipe of a stream's body. Spec is what it promises,
--                         Holds and Refine compare the two call by call, Account counts bytes, and
--                         Body puts the data buffer in
--   Http1.Bufio           the part of the standard library's bufio.Reader that the chunked reader uses
--   Http1.Chunked         internal/chunked.go: the chunked reader. Writer is the chunked writer, Decode
--                         the automaton that the reader is compared with; Sizes, Goes to Reads are
--                         about a line, a round of the loop and a call, RoundTrip about both sides
--   Http2.Flow            internal/http2/flow.go: the windows inflow and outflow
--   Http2.ClientConn      internal/http2/transport.go: ClientConn and clientStream. Streams has the opening
--                         and the end of streams and connections, Control the frames of the read loop
--                         and awaitFlowControl. Runs has the events and the peer's view; Windows to
--                         Paid are about flow control, Marks to GoAways about GOAWAY, where
--                         Afterwards says what holds along a run.
--                         Bodies has processData and the reader of a body, Accounts their runs with
--                         books of every byte, and Balance to Books are about them.
--                         Scratch is about the buffers of request bodies
--   Transport.WantConnQueue
--                         transport.go: the queue wantConnQueue. Shows has the list that it stands
--                         for, Refine compares the two call by call
--   Transport.Dials       transport.go: wantConn, queueForDial and decConnsPerHost. Accounts has the
--                         runs and their invariant; Start, Keeps, Queued, Handed and GivenBack show
--                         that each call keeps it, Limit draws the conclusions
--   Redirect              redirect.go: the policies, and their loop in client.go. Host has getHostname
--                         and getDomain, Fields the part of http.Header that is used; Followed is
--                         about chains of redirects, Sensitive about headers, Ports about host names
--
-- A uint8, uint16 or uint32 is a natural number, cut to its width where the code cuts it; an int32
-- is an integer that passes through `int32` at each assignment. A slice is a list. A method returns
-- the new state of its receiver beside its result; an error is a value, and a panic is `none`. The
-- reader under a Framer is a finite input that ends after it, and the writer is a function that
-- answers each `Write` with a count and an error. `&`, `|` on flags are the bit operations on
-- numbers; a mask of the low 31 bits is `% 2 ^ 31`. The value of `frameCache` is a matter of
-- allocation only and is left out, as are the logging of frames and the dump of headers.
-- The HPACK decoder of golang.org/x/net, the properties of its fields and the tables of httpguts are
-- the record Hpack. Its Write is a tree of calls of the emit function, each of which may change the
-- decoder before it goes on.
-- A frame is a value: that an older frame shares memory with the framer is not modelled.
--
-- The reader under a bufio.Reader hands out a finite input and then returns one error, which is io.EOF
-- or any other, with no bytes, from each call.
--
-- The loops of the data buffer's Read and Write take fuel, one round for each byte wanted or given;
-- a round moves at least one byte, so this is enough. The loop of readMetaFrame takes one round more
-- than the input has bytes, as each frame takes some. The loop of the chunked reader's Read takes two
-- rounds more than the input has bytes, as each round takes some or sets the error. Every other loop
-- runs over a list or a number of rounds that the code knows.
-- The methods of the pipe hold its mutex, and each is one step; calls in any order stand for what
-- the goroutines do. A Read that would wait for a signal is a step that changes nothing. Likewise
-- each stretch of the transport that holds a mutex is one step, and a run of a client connection
-- stops where a step would lock the mutex that it holds. The transport's loops over a queue take one round
-- more than the queue has items. A place of a host is given back only by a dial or a connection that
-- has it; that a dial that fails or a connection that closes does so is not modelled.
--
-- Not modelled: the pool of idle connections and the connection loops of transport.go; of
-- internal/http2/transport.go the header frames, the encoding of requests, pings, timers and traces,
-- and its pool; the rest of HTTP/1 (transfer.go,
-- textproto_reader.go), HTTP/3, alternative services, digest authentication, and the settings,
-- requests and middlewares of client.go, request.go and middleware.go. They are goroutines over
-- sockets, or calls of net/http and of QUIC, around parts that can be modelled like those here.
pub mod Base
pub mod Http1
pub mod Http2
pub mod Redirect
pub mod Transport

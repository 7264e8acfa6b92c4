-- ===== src/Lib.antt =====
-- Verification of the core of CivetWeb, an embedded HTTP and WebSocket server in C.
--
-- The server's master thread accepts connections and queues them for worker threads; a worker reads
-- a request, parses its head, normalises its path, matches it against patterns and serves it, and
-- may go on with WebSocket frames. A timer thread runs callbacks. The parts modelled here are those
-- that decide what such a request means and in what order work is done:
--
-- Base: shared names and lemmas; Base/Binary is about the binary digits of numbers. Ctype: the
-- functions of ctype.h and string.h and the strtoul that the code calls, in the C locale.
-- Text: the string helpers of src/civetweb.c: mg_strlcpy, mg_strndup_ctx, lowercase,
--   mg_strncasecmp, mg_strcasecmp, mg_strcasestr. Text/Compare and Text/Search hold the proofs.
-- Url: mg_url_decode, url_decode_in_place, mg_url_encode. Url/Decode, Url/RoundTrip: proofs.
-- Queue: produce_socket and consume_socket, with the socket queue of struct mg_context as a record.
--   A call is cut into steps at the condition variables, as the mutex is held between them.
--   Queue/Wrap and Queue/Fifo are about one step, Queue/Runs about any sequence of steps.
-- Match: src/match.inl, with the pushes to the context. Match/Relation says what a pattern matches;
--   Match/Longest, Match/Branches, Match/Decides and Match/Prefix compare the code with it.
--   Match/Joined: mg_match, which orders the pushes with mg_sort and joins them; Match/Joined/Order:
--   proofs.
-- Uri: get_uri_type and get_rel_url_at_current_server. Uri/Clean is about what mg_url_decode makes of
--   a URI, Uri/Parts about ends of strings, Uri/Server and Uri/Here about hosts and domains.
-- Path: remove_dot_segments. Path/Clean, Path/Normal, Path/Safe: proofs.
-- Http: get_http_header_len, skip_to_end_of_word_and_terminate, parse_http_headers, the table of
--   methods. Http/Request: parse_http_request. Http/Response: parse_http_response. Http/Lookup:
--   get_header and get_req_headers. Their other children hold the proofs.
-- Base64: mg_base64_encode, b64reverse, mg_base64_decode. Base64/RoundTrip: proofs.
-- Websocket: mask_data, mg_websocket_write_exec, mg_websocket_write, mg_websocket_client_write and
--   the part of read_websocket that takes a frame off, over a parameter mg_write. Websocket/Mask,
--   Websocket/Head, Websocket/RoundTrip: proofs.
-- Timer: timer_add and the rounds of timer_thread_run in src/timer.inl. Timer/Order, Timer/Due,
--   Timer/Sorted and Timer/Rounds: proofs. Timer/Life cuts a round into the steps between which other threads add
--   timers; Timer/Life/Counts and Timer/Life/Account count timers.
-- Calendar: timegm, for systems that lack it. Calendar/Count: proofs.
-- Options: next_option and header_has_option. Options/Entries, Options/Header: proofs.
-- Handlers: the table of URI handlers: mg_set_handler_type, get_request_handler and
--   release_handler_ref. A call is cut into steps at its waits, as the context lock is held between
--   them. Handlers/Lookup sees the table as a map; Handlers/Refs and Handlers/Handout are about the
--   counters of handlers in use; Handlers/Steps is about interleavings.
-- Reply: src/response.inl, with the status texts in Reply/Codes, over a parameter mg_write. It uses
--   Http for headers and Options for keep-alive. Reply/Parts and Reply/Phases describe a response
--   without a connection; Reply/Lines, Reply/Sent, Reply/Effects and Reply/Calls: proofs.
-- Form: mg_split_form_urlencoded and mg_get_var2, over Url. Form/Encoded, Form/Split, Form/Search and
--   Form/Vars: proofs. Form/Cookie: mg_get_cookie, over Text; Form/Cookie/Value, Form/Cookie/First and
--   Form/Cookie/Answer: proofs.
-- Sort: mg_sort of src/sort.inl. Sort/Keeps, Sort/Sorted: proofs.
-- Hpack: hpack_getnum, hpack_decode, append_bits and hpack_encode of src/http2.inl, with the Huffman
--   tables in Hpack/Table. Hpack/Integer has the encoding of integers that RFC 7541 gives, Hpack/Codes
--   the bits of codes. Hpack/Append, Hpack/Encode, Hpack/RoundTrip, Hpack/Whole and Hpack/Ends: proofs.
-- Examples: the theorems at inputs.
--
-- Conventions: a C string is the list of its bytes without the terminator, and reading at the end
-- of the list gives 0. A pointer into a buffer is the rest of the buffer. NULL and -1 are `none` or
-- a constructor of their own. Machine integers keep their masks and shifts; indices and lengths are
-- counted without the bounds of `int`. Output in a buffer is the list of the bytes written, so a
-- path that the code builds in place is built reversed and turned round at the end.
--
-- Fuel: both loops of remove_dot_segments run on fuel, the length of the input, and so does the
-- wrapping of the queue's indices, on the tail. That the first is enough is part of the theorem on
-- the path; for the second it follows from the invariant that the theorems on the queue show. The
-- retry in next_option and the loop of header_has_option run on the length of the list, which each
-- round shortens; their theorems say what a whole run answers. In hpack_decode, collecting a code
-- runs on the bits that are left and the loop over codes on their number and one, which the theorem
-- on its ends shows to be enough; the loop of mg_get_cookie runs on the length of the header and
-- one, which its theorem shows to be enough for a name that is not empty; the loop of hpack_getnum
-- runs on five rounds, as many as there are before a shift that is undefined, and append_bits on
-- the number of bits that it adds. The loops of mg_sort run on the index and on the number of the
-- elements, and its theorem says that the result is sorted.
--
-- Not modelled: sockets, threads, files, TLS, scripting, compression and the standalone program,
-- which are calls of libraries and of the operating system; statistics and logging; failing
-- allocations, except in timer_add; what an output holds after an error.
pub mod Base
pub mod Ctype
pub mod Text
pub mod Url
pub mod Uri
pub mod Queue
pub mod Match
pub mod Path
pub mod Http
pub mod Base64
pub mod Websocket
pub mod Timer
pub mod Calendar
pub mod Options
pub mod Handlers
pub mod Examples
pub mod Reply
pub mod Form
pub mod Sort
pub mod Hpack

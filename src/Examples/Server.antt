-- ===== src/Examples/Server.antt =====
-- The theorems on message heads, the socket queue, timers and frames at inputs.
use civetweb.Base.{All, All-of, Bool, Bytes, IsText-of, List, [], all_of, arith, bit_and, bit_or}
use civetweb.Base.{codes, false, length, ltb, ltb→lt, none, not, peek, pos, refl, some, true, ℕ}
use civetweb.Base.{ℤ, ◌%◌, ◌&&◌, ◌*◌, ◌++◌, ◌+◌, ◌<◌, ◌==◌, ◌∷◌, ◌≡◌, ◌≢◌}
use civetweb.Http.{
  Header, is_name_char, is_value_char, is_word_char, get_http_header_len, parse_http_headers,
}
use civetweb.Http.{cr, lf, is_blank, is_malformed, is_valid_http_method}
use civetweb.Ctype.{isgraph, tolower}
use civetweb.Http.HeaderLen.{ScanFrom, get_http_header_len-ScanFrom}
use civetweb.Http.Headers.{IsHeader, print_headers, parse_http_headers-print_headers}
use civetweb.Http.Lookup.{get_header, get_req_headers, Values, end, hit, miss, get_req_headers-take}
use civetweb.Http.Request.{RequestInfo, parse_http_request, complete}
use civetweb.Http.Request.Scan.{IsPlain}
use civetweb.Http.Request.RoundTrip.{IsRequest, print_text, print_request}
use civetweb.Http.Request.Whole.{parse_http_request-print_request}
use civetweb.Http.{skip_to_end_of_word_and_terminate}
use civetweb.Http.Request.{Parsed, malformed, incomplete}
use civetweb.Http.Response.{ResponseInfo, parse_http_response}
use civetweb.Queue.{SocketQueue, Step, waits, returns, IsValid, produce_socket, consume_resumed}
use civetweb.Queue.Wrap.{contents}
use civetweb.Queue.Fifo.{Produces, Consumes, produce_socket-Produces, consume_resumed-Consumes}
use civetweb.Queue.Runs.{Run, start, produced, consumed, Run-fifo}
use civetweb.Timer.{Timer, Timers, timer_add, timer_round}
use civetweb.Timer.Rounds
use civetweb.Timer.Life.{Thread, Move, adds, looks, ends, run}
use civetweb.Timer.Life.Account.{in_use, total, entered, released, dropped, run-total}
use civetweb.Timer.Rounds.{AddsDue, Runs, timer_add-Adds, timer_round-Runs}
use civetweb.Websocket.{mg_websocket_write, mg_websocket_client_write, read_frame, takes}
use civetweb.Websocket.RoundTrip.{
  read_frame-mg_websocket_write, read_frame-mg_websocket_client_write,
}
use civetweb.Websocket.{Key, mask_data, mask_bytes}
use civetweb.Websocket.Mask.{mask_data-eq-mask_bytes}

abbrev host : Header
host = record { name = codes "Host"; value = codes "a.org" }

abbrev accept : Header
accept = record { name = codes "Accept"; value = codes "*/*" }

abbrev request : RequestInfo
request = record {
  request_method = codes "GET";
  request_uri = codes "/a?b=1";
  http_version = codes "1.1";
  http_headers = host ∷ accept ∷ [];
}

IsHeader-of :
    (h : Header)
    → h.name ≢ []
    → all_of is_name_char h.name ≡ true
    → all_of is_value_char h.value ≡ true
    → is_blank (peek h.value) ≡ false
    → IsHeader h
IsHeader-of h a b c d = record {
  named = a;
  name_chars = All-of _ is_name_char (λ x e. e) h.name b;
  value_chars = All-of _ is_value_char (λ x e. e) h.value c;
  trimmed = d;
}

host-IsHeader : IsHeader host
unfolding is_name_char is_value_char is_blank
host-IsHeader = IsHeader-of host (λ e. cc) refl refl refl

accept-IsHeader : IsHeader accept
unfolding is_name_char is_value_char is_blank
accept-IsHeader = IsHeader-of accept (λ e. cc) refl refl refl

abbrev plain_test : ℕ → Bool
plain_test c = not (is_malformed c) && (not (c == cr) && not (c == lf))

IsPlain-of : (c : ℕ) → plain_test c ≡ true → IsPlain c
IsPlain-of c h = (ground arith, ground arith, ground arith)

plain : (s : Bytes) → all_of plain_test s ≡ true → All IsPlain s
plain = All-of IsPlain plain_test IsPlain-of

IsWord_of : (s : Bytes) → all_of is_word_char s ≡ true → All (λ c. is_word_char c ≡ true) s
IsWord_of = All-of (λ c. is_word_char c ≡ true) is_word_char (λ x e. e)

request-IsRequest : IsRequest request
unfolding is_word_char is_valid_http_method is_malformed isgraph
request-IsRequest = record {
  known = refl;
  method_word = IsWord_of (codes "GET") refl;
  method_first = refl;
  uri_word = IsWord_of (codes "/a?b=1") refl;
  uri_first = refl;
  version_word = IsWord_of (codes "1.1") refl;
  headers = (host-IsHeader, (accept-IsHeader, tt));
  headers_plain = (
    (plain host.name refl, plain host.value refl),
    ((plain accept.name refl, plain accept.value refl), tt),
  );
  headers_fit = omega arith;
}

parse_http_request-print_request_example :
    parse_http_request (print_request request (codes "rest"))
    ≡ complete (length (print_text request (cr ∷ lf ∷ []))) request
parse_http_request-print_request_example =
    parse_http_request-print_request request (codes "rest") request-IsRequest

get_http_header_len-ScanFrom_example :
    ScanFrom
      (codes "GET / HTTP/1.0\n\nbody")
      0
      (get_http_header_len (codes "GET / HTTP/1.0\n\nbody"))
get_http_header_len-ScanFrom_example = get_http_header_len-ScanFrom (codes "GET / HTTP/1.0\n\nbody")

parse_http_headers-print_headers_example :
    parse_http_headers (print_headers (host ∷ accept ∷ []) (cr ∷ []))
    ≡ some (record { headers = host ∷ accept ∷ []; rest = cr ∷ [] })
parse_http_headers-print_headers_example =
    parse_http_headers-print_headers (host ∷ accept ∷ []) (cr ∷ []) (omega arith)
      (host-IsHeader, (accept-IsHeader, tt)) refl

accept-Values : Values (codes "accept") (host ∷ accept ∷ []) (codes "*/*" ∷ [])
unfolding tolower
accept-Values = miss (λ e. cc) (hit refl end)

get_req_headers-take_example :
    (get_header (host ∷ accept ∷ []) (codes "accept") ≡ some (codes "*/*"))
    × (get_req_headers (host ∷ accept ∷ []) (codes "accept") 4 ≡ codes "*/*" ∷ [])
get_req_headers-take_example =
    get_req_headers-take (codes "accept") (host ∷ accept ∷ []) (codes "*/*" ∷ []) 4
      (IsText-of (codes "accept") refl)
      (IsText-of (codes "Host") refl, (IsText-of (codes "Accept") refl, tt)) accept-Values

abbrev sockets : SocketQueue ℕ
sockets = record {
  squeue = λ i. i;
  sq_size = 3;
  sq_head = 4;
  sq_tail = 2;
  sq_blocked = false;
  idle_worker_thread_count = 1;
  stop_flag = false;
}

sockets-IsValid : IsValid sockets
sockets-IsValid = record {
  size_pos = omega arith;
  ordered = omega arith;
  fits = omega arith;
  wrapped = omega arith;
}

produce_socket-Produces_example : Produces 7 sockets (produce_socket 7 sockets)
produce_socket-Produces_example = produce_socket-Produces 7 sockets sockets-IsValid

consume_resumed-Consumes_example : Consumes sockets (consume_resumed sockets)
consume_resumed-Consumes_example = consume_resumed-Consumes sockets sockets-IsValid

abbrev state_of : {R : Type 0} → Step ℕ R → SocketQueue ℕ
state_of (waits q) = q
state_of (returns r q) = q

abbrev longer : SocketQueue ℕ
longer = state_of (produce_socket 7 sockets)

Run-two : Run sockets (7 ∷ []) (2 ∷ []) (state_of (consume_resumed longer))
unfolding produce_socket consume_resumed
Run-two = consumed 2 true (produced 7 start refl) refl

Run-fifo_example :
    IsValid (state_of (consume_resumed longer))
    × ((2 ∷ []) ++ contents (state_of (consume_resumed longer)) ≡ contents sockets ++ (7 ∷ []))
Run-fifo_example = Run-fifo sockets-IsValid Run-two

abbrev key : Key
key = record { k0 = 0x12; k1 = 0x34; k2 = 0x56; k3 = 0xff }

abbrev message : Bytes
message = codes "Hello, world"

mask_data-eq-mask_bytes_example : mask_data true message key ≡ mask_bytes key 0 message
mask_data-eq-mask_bytes_example = mask_data-eq-mask_bytes true message key

lt_asym : (a b : ℕ) → ltb a b ≡ true → ltb b a ≡ false
lt_asym a b h = ground arith

le_trans : (a b c : ℕ) → ltb b a ≡ false → ltb c b ≡ false → ltb c a ≡ false
le_trans a b c h k = ground arith

abbrev timer : ℕ → ℕ → Timer ℕ ℕ ℕ
timer t n = record { time = t; period = 5; action = n; arg = n; cancel = none }

abbrev two_timers : Timers ℕ ℕ ℕ
two_timers = record { timers = λ i. timer (10 + 10 * i) i; timer_count = 2; timer_capacity = 2 }

two_timers-IsValid : Rounds.IsValid ltb ◌+◌ 0 two_timers
two_timers-IsValid = ((λ i j h k. ground arith), omega arith)

timer_round-Runs_example :
    Runs ltb ◌+◌ 0 lt_asym le_trans 50 true 12 13 two_timers
      (timer_round ltb ◌+◌ 0 50 true 12 13 true two_timers)
timer_round-Runs_example =
    timer_round-Runs ltb ◌+◌ 0 lt_asym le_trans 50 true 12 13 true two_timers two_timers-IsValid

timer_add-Adds_example :
    AddsDue ltb ◌+◌ 0 50 true 13 true
      (timer 2 7)
      two_timers
      (timer_add ltb ◌+◌ 0 50 true 13 true (timer 2 7) two_timers)
timer_add-Adds_example =
    timer_add-Adds ltb ◌+◌ 0 lt_asym le_trans 50 true 13 true (timer 2 7) two_timers
      two_timers-IsValid

abbrev wire : Bytes → Bytes → ℤ × Bytes
wire b s = (pos (length b), s ++ b)

read_frame-mg_websocket_write_example :
    read_frame ((mg_websocket_write wire 1 message []).1 ++ (0x88 ∷ 0 ∷ []))
    ≡ takes (bit_or 0x80 (bit_and 1 0xf)) message (0x88 ∷ 0 ∷ [])
read_frame-mg_websocket_write_example =
    read_frame-mg_websocket_write wire (λ b s. refl) 1 message (0x88 ∷ 0 ∷ []) (omega arith)

read_frame-mg_websocket_client_write_example :
    read_frame ((mg_websocket_client_write wire true key 2 message []).1 ++ (0x88 ∷ 0 ∷ []))
    ≡ takes (bit_or 0x80 (bit_and 2 0xf)) message (0x88 ∷ 0 ∷ [])
read_frame-mg_websocket_client_write_example =
    read_frame-mg_websocket_client_write wire (λ b s. refl) true key 2 message (0x88 ∷ 0 ∷ [])
      (All-of (λ c. c < 256) (λ c. ltb c 256) (λ c h. ltb→lt c 256 h)
        (0x12 ∷ 0x34 ∷ 0x56 ∷ 0xff ∷ []) refl)
      refl (All-of (λ c. c < 256) (λ c. ltb c 256) (λ c h. ltb→lt c 256 h) message refl)
      (omega arith)

abbrev response : Bytes
response = codes "HTTP/1.1 404 Not Found\nHost: a.org\n\nbody"

abbrev found : ResponseInfo
found = record {
  http_version = codes "1.1";
  status_code = 404;
  status_text = codes "Not Found";
  http_headers = host ∷ accept ∷ [];
}

abbrev status_of : Parsed ResponseInfo → ℕ
status_of (complete n r) = r.status_code
status_of malformed = 0
status_of incomplete = 0

response_status : status_of (parse_http_response response) ≡ 404
unfolding parse_http_response get_http_header_len skip_to_end_of_word_and_terminate
    parse_http_headers civetweb.Ctype.isspace isgraph is_word_char civetweb.Http.skip_spaces
response_status = refl

abbrev odd_arg : ℕ → Bool
odd_arg n = n % 2 == 1

abbrev first_state : Thread ℕ ℕ ℕ
first_state = record { list = two_timers; running = none }

-- A timer is taken, another one is added while its action runs, and it cannot be added again.
abbrev some_moves : List (Move ℕ ℕ ℕ)
some_moves =
    looks 12
    ∷ adds true 13 true (timer 2 7)
    ∷ ends true true 14
    ∷ looks 25
    ∷ ends false true 26
    ∷ []

run-total_example :
    in_use ltb ◌+◌ 0 2 odd_arg first_state
      + total ltb ◌+◌ 0 2 odd_arg
          (entered ltb ◌+◌ 0 2 odd_arg)
          (run ltb ◌+◌ 0 2 some_moves first_state).0
    ≡ in_use ltb ◌+◌ 0 2 odd_arg (run ltb ◌+◌ 0 2 some_moves first_state).1
      + total ltb ◌+◌ 0 2 odd_arg
          (released ltb ◌+◌ 0 2 odd_arg)
          (run ltb ◌+◌ 0 2 some_moves first_state).0
      + total ltb ◌+◌ 0 2 odd_arg
          (dropped ltb ◌+◌ 0 2 odd_arg)
          (run ltb ◌+◌ 0 2 some_moves first_state).0
run-total_example = run-total ltb ◌+◌ 0 2 odd_arg some_moves first_state

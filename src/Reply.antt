-- ===== src/Reply.antt =====
-- Responses under construction: src/response.inl, with the status texts, get_http_version,
-- mg_get_header, should_keep_alive and suggest_connection_header of src/civetweb.c. The build buffers
-- headers and is without HTTP/2; the connection is not NULL and allocations succeed. A text that is
-- printed is not empty, so `mg_printf` is one call of `mg_write`, which marks the connection.
pub mod Codes
pub mod Lines
pub mod Parts
pub mod Sent
pub mod Phases
pub mod Effects
pub mod Calls
use civetweb.Base.{Bool, Bytes, List, Option, [], codes, false, if◌then◌else◌, leb, length}
use civetweb.Base.{ltb_ℤ, negsuc, none, not, pos, pos_part, some, suc, take, true, ℕ, ℤ, ◌%◌}
use civetweb.Base.{◌&&◌, ◌++◌, ◌+◌, ◌/◌, ◌==◌, ◌||◌, ◌∷◌}
use civetweb.Ctype.{str_eq}
use civetweb.Text.{is_zero, mg_strcasecmp}
use civetweb.Options.{header_has_option}
use civetweb.Http.{Header, HeaderList, parse_http_headers, max_headers, cr, lf}
use civetweb.Http.Lookup.{get_header}
use civetweb.Reply.Codes.{mg_get_response_code_text}

-- CONNECTION_TYPE_*
pub data ConnectionType : Type 0 where
  connection_invalid connection_request connection_response : ConnectionType

-- PROTOCOL_TYPE_*
pub data ProtocolType : Type 0 where
  protocol_http1 protocol_websocket protocol_http2 : ProtocolType

-- The fields of struct mg_connection that this code reads and writes. `sent` is the state of what is
-- below `mg_write`.
pub record Connection (S : Type 0) : Type 0 where
  pub connection_type : ConnectionType
  pub protocol_type : ProtocolType
  pub request_state : ℕ
  pub must_close : Bool
  pub enable_keep_alive : Bytes
  pub request_http_version : Option Bytes
  pub response_http_version : Option Bytes
  pub request_headers : List Header
  pub response_headers : List Header
  pub status_code : ℤ
  pub sent : S

abbrev pub is_request : ConnectionType → Bool
is_request connection_request = true
is_request t = false

abbrev pub is_websocket : ProtocolType → Bool
is_websocket protocol_websocket = true
is_websocket t = false

abbrev pub is_some : {A : Type 0} → Option A → Bool
is_some none = false
is_some (some a) = true

-- status < 100 || status > 999
abbrev pub is_bad_status : ℤ → Bool
is_bad_status status = ltb_ℤ status 100 || not (ltb_ℤ status 1000)

-- The text of "%s: %s\r\n".
unfoldable pub header_line_text : Header → Bytes
header_line_text h = h.name ++ (b':' ∷ 32 ∷ (h.value ++ (cr ∷ lf ∷ [])))

-- The text of "%i" for three digits.
abbrev pub digits : ℕ → Bytes
digits n = (48 + n / 100) ∷ (48 + n / 10 % 10) ∷ (48 + n % 10) ∷ []

abbrev pub version_or_default : Option Bytes → Bytes
version_or_default none = codes "1.0"
version_or_default (some v) = v

abbrev pub valid_code : ℤ → ℕ
valid_code status_code = if is_bad_status status_code then 500 else pos_part status_code

-- The text of "HTTP/%s %i %s\r\n".
unfoldable pub status_line : ℤ → Option Bytes → Bytes
status_line status_code http_version =
    codes "HTTP/"
    ++ (version_or_default http_version
        ++ (32
            ∷ (digits (valid_code status_code)
                ++ (32 ∷ (mg_get_response_code_text status_code ++ (cr ∷ lf ∷ []))))))

-- Whether the loop over the headers meets this name.
unfoldable pub has_header : Bytes → List Header → Bool
has_header name [] = false
has_header name (h ∷ hs) =
    let later = has_header name hs in if is_zero (mg_strcasecmp name h.name) then true else later

abbrev pub is_version : Option Bytes → Bytes → Bool
is_version none s = false
is_version (some v) s = str_eq v s

-- A negative length stands for strlen.
abbrev pub copied_value : Bytes → ℤ → Bytes
copied_value value (pos n) = take n value
copied_value value (negsuc n) = value

abbrev pub first_error : ℤ → ℤ → ℤ
first_error (pos (suc n)) (negsuc k) = negsuc k
first_error ret lret = ret

module _ {S : Type 0} where
  unfoldable pub get_http_version : Connection S → Option Bytes
  get_http_version conn = elim conn.connection_type [
    | connection_request ↦ conn.request_http_version
    | connection_response ↦ conn.response_http_version
    | connection_invalid ↦ none
  ]

  unfoldable pub mg_get_header : Connection S → Bytes → Option Bytes
  mg_get_header conn name = elim conn.connection_type [
    | connection_request ↦ get_header conn.request_headers name
    | connection_response ↦ get_header conn.response_headers name
    | connection_invalid ↦ none
  ]

  unfoldable pub should_keep_alive : Connection S → Bool
  should_keep_alive conn =
      let header = mg_get_header conn (codes "Connection") in
      if conn.must_close
      then false
      else if not (is_zero (mg_strcasecmp conn.enable_keep_alive (codes "yes")))
      then false
      else if is_some header
      then header_has_option header (codes "keep-alive")
      else is_version (get_http_version conn) (codes "1.1")

  unfoldable pub suggest_connection_header : Connection S → Bytes
  suggest_connection_header conn =
      if should_keep_alive conn then codes "keep-alive" else codes "close"

  -- Only a request that is no WebSocket is answered by this code.
  unfoldable pub is_server : Connection S → Bool
  is_server conn = is_request conn.connection_type && not (is_websocket conn.protocol_type)

  abbrev pub free_buffered_response_header_list : Connection S → Connection S
  free_buffered_response_header_list conn = record conn { response_headers = [] }

  unfoldable pub mg_response_header_start : ℤ → Connection S → ℤ × Connection S
  mg_response_header_start status conn =
      if is_bad_status status
      then (negsuc 0, conn)
      else if not (is_server conn)
      then (negsuc 1, conn)
      else if not (conn.request_state == 0)
      then (negsuc 2, conn)
      else (
        pos 0,
        free_buffered_response_header_list
            (record conn { status_code = status; request_state = 1 }),
      )

  abbrev pub store_header : Bytes → Bytes → ℤ → Connection S → ℤ × Connection S
  store_header header value value_len conn =
      if leb max_headers (length conn.response_headers) then (negsuc 3, conn) else (
        pos 0,
        record conn {
          response_headers =
              conn.response_headers
              ++ (record { name = header; value = copied_value value value_len } ∷ []);
        },
      )

  unfoldable pub mg_response_header_add :
      Option Bytes → Option Bytes → ℤ → Connection S → ℤ × Connection S
  mg_response_header_add (some header) (some value) value_len conn =
      if not (is_server conn)
      then (negsuc 1, conn)
      else if not (conn.request_state == 1)
      then (negsuc 2, conn)
      else store_header header value value_len conn
  mg_response_header_add header value value_len conn = (negsuc 0, conn)

  unfoldable pub add_loop : List Header → ℤ → Connection S → ℤ × Connection S
  add_loop [] ret conn = (ret, conn)
  add_loop (h ∷ hs) ret conn =
      let (lret, next) = mg_response_header_add (some h.name) (some h.value) (negsuc 0) conn in
      add_loop hs (first_error ret lret) next

  abbrev pub add_parsed : Option HeaderList → Connection S → ℤ × Connection S
  add_parsed none conn = (negsuc 0, conn)
  add_parsed (some l) conn = add_loop l.headers (pos (length l.headers)) conn

  unfoldable pub mg_response_header_add_lines : Bytes → Connection S → ℤ × Connection S
  unfolding add_loop
  mg_response_header_add_lines http1_headers conn =
      add_parsed (parse_http_headers http1_headers) conn

  -- `mg_write` sends bytes over the connection; its answer is the number of bytes sent.
  module _ (mg_write : Bytes → S → ℤ × S) where
    abbrev pub mg_print : Bytes → Connection S → ℤ × Connection S
    mg_print s conn =
        let (n, sent) = mg_write s conn.sent in (n, record conn { request_state = 10; sent = sent })

    unfoldable pub send_http1_response_status_line : Connection S → Bool × Connection S
    send_http1_response_status_line conn =
        let (n, next) = mg_print (status_line conn.status_code conn.request_http_version) conn in
        (not (ltb_ℤ n 10), next)

    unfoldable pub send_headers : List Header → Connection S → Connection S
    send_headers [] conn = conn
    send_headers (h ∷ hs) conn = send_headers hs (mg_print (header_line_text h) conn).1

    -- A header that is sent if the loop has not met its name.
    unfoldable pub send_default : Bytes → Bytes → List Header → Connection S → Connection S
    send_default name value hs conn =
        if has_header name hs
        then conn
        else (mg_print (header_line_text (record { name = name; value = value })) conn).1

    -- What is sent behind the status line. `date` is the text of the time.
    unfoldable pub send_rest : Bytes → Connection S → Connection S
    send_rest date conn =
        let hs = conn.response_headers in
        let with_headers = send_headers hs conn in
        let with_date = send_default (codes "Date") date hs with_headers in
        let connection = suggest_connection_header with_date in
        let with_connection = send_default (codes "Connection") connection hs with_date in
        let ended = (mg_print (cr ∷ lf ∷ []) with_connection).1 in
        free_buffered_response_header_list (record ended { request_state = 3 })

    unfoldable pub mg_response_header_send : Bytes → Connection S → ℤ × Connection S
    mg_response_header_send date conn =
        let (sent_line, next) =
          send_http1_response_status_line (record conn { request_state = 2 }) in
        if not (is_server conn)
        then (negsuc 1, conn)
        else if not (conn.request_state == 1)
        then (negsuc 2, conn)
        else if sent_line
        then (pos 0, send_rest date next)
        else (negsuc 3, free_buffered_response_header_list next)

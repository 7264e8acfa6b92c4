-- ===== src/Reply/Phases.antt =====
-- A description of a response under construction that keeps no connection.
use civetweb.Base.{Bytes, List, Option, [], if◌then◌else◌, length, none, refl, some, take, ℤ}
use civetweb.Base.{◌++◌, ◌∷◌, ◌≡◌, ◌≤◌}
use civetweb.Http.{Header, HeaderList, parse_http_headers, max_headers}
use civetweb.Reply.{
  Connection, mg_response_header_start, mg_response_header_add, mg_response_header_add_lines,
  mg_response_header_send, status_line,
}
use civetweb.Reply.Sent.{all_headers, head_text, header_texts}
use civetweb.Reply.Parts.{is_status, value_of, crlf, first_line-eq}

pub data Call : Type 0 where
  starts : ℤ → Call
  adds : Option Bytes → Option Bytes → ℤ → Call
  adds_lines : Bytes → Call
  sends_at : Bytes → Call

module _ {S : Type 0} (mg_write : Bytes → S → ℤ × S) where
  -- The connection behind a call, whose result is passed over.
  abbrev pub call : Call → Connection S → Connection S
  call (starts status) conn = (mg_response_header_start status conn).1
  call (adds header value value_len) conn = (mg_response_header_add header value value_len conn).1
  call (adds_lines lines) conn = (mg_response_header_add_lines lines conn).1
  call (sends_at date) conn = (mg_response_header_send mg_write date conn).1

  unfoldable pub calls : List Call → Connection S → Connection S
  calls [] conn = conn
  calls (k ∷ ks) conn = calls ks (call k conn)

-- What has been done for a response.
pub data Phase : Type 0 where
  idle : Phase
  building : ℤ → List Header → Phase
  over : Phase

abbrev pub with_lines : ℤ → List Header → Option HeaderList → Phase
with_lines status hs none = building status hs
with_lines status hs (some l) = building status (take 64 (hs ++ l.headers))

-- What a call makes of it: a valid status opens a response, headers are put behind those that are
-- there while there is room, and a response is sent once.
abbrev pub next_phase : Call → Phase → Phase
next_phase (starts status) idle = if is_status status then building status [] else idle
next_phase (adds (some header) (some value) value_len) (building status hs) =
    building status
      (take 64 (hs ++ (record { name = header; value = value_of value value_len } ∷ [])))
next_phase (adds_lines lines) (building status hs) = with_lines status hs (parse_http_headers lines)
next_phase (sends_at date) (building status hs) = over
next_phase k p = p

-- What a call sends, where the connection has this version and suggestion.
abbrev pub call_text : Option Bytes → Bytes → Call → Phase → Bytes
call_text version connection (sends_at date) (building status hs) =
    head_text status version (all_headers date connection hs)
call_text version connection k p = []

unfoldable pub calls_text : Option Bytes → Bytes → List Call → Phase → Bytes
calls_text version connection [] p = []
calls_text version connection (k ∷ ks) p =
    call_text version connection k p ++ calls_text version connection ks (next_phase k p)

abbrev pub InPhase : {S : Type 0} → Phase → Connection S → Type 0
InPhase idle conn = conn.request_state ≡ 0
InPhase (building status hs) conn =
    (conn.request_state ≡ 1)
    × (conn.status_code ≡ status)
    × (conn.response_headers ≡ hs)
    × (length hs ≤ max_headers)
InPhase over conn = conn.request_state ≡ 3

pub adds-idle :
    (header value : Option Bytes) (value_len : ℤ)
    → next_phase (adds header value value_len) idle ≡ idle
adds-idle none value value_len = refl
adds-idle (some header) none value_len = refl
adds-idle (some header) (some value) value_len = refl

pub adds-over :
    (header value : Option Bytes) (value_len : ℤ)
    → next_phase (adds header value value_len) over ≡ over
adds-over none value value_len = refl
adds-over (some header) none value_len = refl
adds-over (some header) (some value) value_len = refl

pub head-same :
    (date : Bytes) (v : Option Bytes) (a b : ℤ) (k l : Bytes) (gs hs : List Header)
    → a ≡ b
    → k ≡ l
    → gs ≡ hs
    → status_line a v ++ (header_texts (all_headers date k gs) ++ crlf)
      ≡ head_text b v (all_headers date l hs)
unfolding head_text
head-same date v a b k l gs hs p q r = rw (p, q, r, first_line-eq b v) refl

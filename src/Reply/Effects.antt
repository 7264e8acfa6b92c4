-- ===== src/Reply/Effects.antt =====
-- What a call of src/response.inl does to the connection, case by case.
use civetweb.Base.{Bytes, List, Option, [], ap, arith, false, if_split, inl, inr, length, negsuc}
use civetweb.Base.{none, not, pos, refl, some, sym, take, true, ℕ, ℤ, ◌++◌, ◌==◌, ◌∙◌, ◌∷◌, ◌≡◌}
use civetweb.Base.{◌≢◌, ◌≤◌, ◌⊎◌}
use civetweb.Http.{Header, HeaderList, parse_http_headers, max_headers}
use civetweb.Reply.{
  Connection, is_bad_status, is_server, copied_value, mg_response_header_start,
  mg_response_header_add, first_error, add_parsed, add_loop, mg_response_header_add_lines,
  send_rest, mg_response_header_send, send_http1_response_status_line,
}
use civetweb.Reply.Lines.{add_loop-headers}
use civetweb.Reply.Parts.{is_status, is_status-eq, value_of, value_of-eq}

pub another : (n a b : ℕ) → n ≡ a → (a == b) ≡ false → n ≢ b
another n a b e f = λ o. ground arith

pub no_headers : 0 ≤ max_headers
no_headers = omega arith

late : (n k : ℕ) → n ≢ k → not (n == k) ≡ true
late n k h = ground arith

module _ {S : Type 0} where
  pub start-bad :
      (status : ℤ) (conn : Connection S)
      → is_status status ≡ false
      → (mg_response_header_start status conn).1 ≡ conn
  unfolding mg_response_header_start
  start-bad status conn f = rw (is_status-eq status, f) refl

  pub start-late :
      (status : ℤ) (conn : Connection S)
      → conn.request_state ≢ 0
      → (mg_response_header_start status conn).1 ≡ conn
  unfolding mg_response_header_start
  start-late status conn n =
      if_split (λ (r : ℤ × Connection S). r.1 ≡ conn) (is_bad_status status) _ _ (λ e. refl)
        (λ e.
          if_split (λ (r : ℤ × Connection S). r.1 ≡ conn) (not (is_server conn)) _ _ (λ e. refl)
            (λ e. rw (late conn.request_state 0 n) refl))

  pub start-opens :
      (status : ℤ) (conn : Connection S)
      → is_status status ≡ true
      → is_server conn ≡ true
      → conn.request_state ≡ 0
      → (mg_response_header_start status conn).1
        ≡ record conn { status_code = status; request_state = 1; response_headers = [] }
  unfolding mg_response_header_start
  start-opens status conn f e z = rw (is_status-eq status, f, e, z) refl

  pub add-late :
      (header value : Option Bytes) (value_len : ℤ) (conn : Connection S)
      → conn.request_state ≢ 1
      → (mg_response_header_add header value value_len conn).1 ≡ conn
  unfolding mg_response_header_add
  add-late none value value_len conn n = refl
  add-late (some header) none value_len conn n = refl
  add-late (some header) (some value) value_len conn n =
      if_split (λ (r : ℤ × Connection S). r.1 ≡ conn) (not (is_server conn)) _ _ (λ e. refl)
        (λ e. rw (late conn.request_state 1 n) refl)

  pub add-null :
      (header value : Option Bytes) (value_len : ℤ) (conn : Connection S)
      → (header ≡ none) ⊎ (value ≡ none)
      → (mg_response_header_add header value value_len conn).1 ≡ conn
  unfolding mg_response_header_add
  add-null none value value_len conn n = refl
  add-null (some header) none value_len conn n = refl
  add-null (some header) (some value) value_len conn (inl e) = cc
  add-null (some header) (some value) value_len conn (inr e) = cc

  pub add-appends :
      (header value : Bytes) (value_len : ℤ) (conn : Connection S)
      → is_server conn ≡ true
      → conn.request_state ≡ 1
      → length conn.response_headers ≤ max_headers
      → (mg_response_header_add (some header) (some value) value_len conn).1 ≡ record conn {
        response_headers = take max_headers (
            conn.response_headers
            ++ (record { name = header; value = value_of value value_len } ∷ []));
      }
  unfolding mg_response_header_add add_loop
  add-appends header value value_len conn e z room = rw (sym (value_of-eq value value_len)) (
      add_loop-headers (record { name = header; value = copied_value value value_len } ∷ []) (pos 0)
        conn e z room)

  pub loop-late :
      (hs : List Header) (ret : ℤ) (conn : Connection S)
      → conn.request_state ≢ 1
      → (add_loop hs ret conn).1 ≡ conn
  unfolding add_loop
  loop-late [] ret conn n = refl
  loop-late (h ∷ hs) ret conn n =
      let r = mg_response_header_add (some h.name) (some h.value) (negsuc 0) conn in
      ap (λ c. (add_loop hs (first_error ret r.0) c).1)
        (add-late (some h.name) (some h.value) (negsuc 0) conn n)
      ∙ loop-late hs (first_error ret r.0) conn n

  pub parsed-late :
      (l : Option HeaderList) (conn : Connection S)
      → conn.request_state ≢ 1
      → (add_parsed l conn).1 ≡ conn
  parsed-late none conn n = refl
  parsed-late (some l) conn n = loop-late l.headers (pos (length l.headers)) conn n

  pub lines-late :
      (lines : Bytes) (conn : Connection S)
      → conn.request_state ≢ 1
      → (mg_response_header_add_lines lines conn).1 ≡ conn
  unfolding mg_response_header_add_lines
  lines-late lines conn n = parsed-late (parse_http_headers lines) conn n

  pub send-late :
      (mg_write : Bytes → S → ℤ × S) (date : Bytes) (conn : Connection S)
      → conn.request_state ≢ 1
      → (mg_response_header_send mg_write date conn).1 ≡ conn
  unfolding mg_response_header_send
  send-late mg_write date conn n =
      if_split (λ (r : ℤ × Connection S). r.1 ≡ conn) (not (is_server conn)) _ _ (λ e. refl)
        (λ e. rw (late conn.request_state 1 n) refl)

  pub send-sends :
      (mg_write : Bytes → S → ℤ × S) (date : Bytes) (conn : Connection S)
      → is_server conn ≡ true
      → conn.request_state ≡ 1
      → (send_http1_response_status_line mg_write (record conn { request_state = 2 })).0 ≡ true
      → (mg_response_header_send mg_write date conn).1
        ≡ send_rest mg_write date
            (send_http1_response_status_line mg_write (record conn { request_state = 2 })).1
  unfolding mg_response_header_send
  send-sends mg_write date conn e z f = rw (e, z, f) refl

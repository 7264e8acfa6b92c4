-- ===== src/Reply/Sent.antt =====
-- What src/response.inl sends.
use civetweb.Base.{Bool, Bool-cases, Bytes, List, Option, [], ap, append-nil, append_assoc}
use civetweb.Base.{arith, codes, if◌then◌else◌, inl, inr, length, length-append, ltb, ltb_ℤ, not}
use civetweb.Base.{pos, refl, subst, sym, true, ℕ, ℤ, ◌&&◌, ◌++◌, ◌∙◌, ◌∷◌, ◌≡◌, ◌≤◌}
use civetweb.Http.{Header, cr, lf}
use civetweb.Http.Lookup.{get_header}
use civetweb.Reply.Codes.{mg_get_response_code_text}
use civetweb.Reply.{
  Connection, ConnectionType, connection_request, connection_invalid, connection_response,
  is_request, is_server, mg_get_header, get_http_version, should_keep_alive,
  suggest_connection_header, header_line_text, status_line, version_or_default, digits, valid_code,
  mg_print, send_http1_response_status_line, send_headers, send_default, send_rest,
}
use civetweb.Reply.Parts.{
  crlf, line_of, line_of-eq, values_of, is_nil, has_header-eq, first_line, connection_value,
  first_of, is_named, is_named-eq, get_header-eq, keep_tests,
}

-- The texts of headers, one behind the other.
pub header_texts : List Header → Bytes
header_texts [] = []
header_texts (h ∷ hs) = line_of h ++ header_texts hs

-- A header that is there if its name is not among the others.
abbrev pub default_header : Bytes → Bytes → List Header → List Header
default_header name value hs =
    if is_nil (values_of name hs) then record { name = name; value = value } ∷ [] else []

-- The headers of a response: those added, then the default ones.
pub all_headers : Bytes → Bytes → List Header → List Header
all_headers date connection hs =
    hs
    ++ (default_header (codes "Date") date hs ++ default_header (codes "Connection") connection hs)

-- A whole head.
unfoldable pub head_text : ℤ → Option Bytes → List Header → Bytes
head_text status http_version hs = first_line status http_version ++ (header_texts hs ++ crlf)

header_texts-append :
    (xs ys : List Header) → header_texts (xs ++ ys) ≡ header_texts xs ++ header_texts ys
unfolding header_texts
header_texts-append [] ys = refl
header_texts-append (x ∷ xs) ys =
    ap (λ l. line_of x ++ l) (header_texts-append xs ys)
    ∙ sym (append_assoc (line_of x) (header_texts xs) (header_texts ys))

rest_text :
    (date : Bytes) (hs : List Header) (k l : Bytes)
    → k ≡ l
    → ((header_texts hs ++ header_texts (default_header (codes "Date") date hs))
          ++ header_texts (default_header (codes "Connection") k hs))
        ++ (cr ∷ lf ∷ [])
      ≡ header_texts (all_headers date l hs) ++ (cr ∷ lf ∷ [])
unfolding all_headers
rest_text date hs k l e =
    let ds = default_header (codes "Date") date hs in
    let cs = default_header (codes "Connection") l hs in
    ap (λ t. t ++ (cr ∷ lf ∷ []))
      (ap
          (λ v.
            (header_texts hs ++ header_texts ds)
            ++ header_texts (default_header (codes "Connection") v hs))
          e
        ∙ append_assoc (header_texts hs) (header_texts ds) (header_texts cs)
        ∙ ap (λ t. header_texts hs ++ t) (sym (header_texts-append ds cs))
        ∙ sym (header_texts-append hs (ds ++ cs)))

status_line-long : (status : ℤ) (v : Option Bytes) → 10 ≤ length (status_line status v)
unfolding status_line
status_line-long status v = omega (
  arith,
  length-append (version_or_default v) (
      32
      ∷ (digits (valid_code status)
          ++ (32 ∷ (mg_get_response_code_text status ++ (cr ∷ lf ∷ []))))),
  length-append (mg_get_response_code_text status) (cr ∷ lf ∷ []),
)

not_short : (n : ℕ) → 10 ≤ n → not (ltb n 10) ≡ true
not_short n h = ground arith

is_request_iff : (t : ConnectionType) → is_request t ≡ true → t ≡ connection_request
is_request_iff connection_request e = refl
is_request_iff connection_invalid e = cc
is_request_iff connection_response e = cc

and_left : (a b : Bool) → (a && b) ≡ true → a ≡ true
and_left a b e = ground arith

module _ {S : Type 0} where
  type_of :
      (conn : Connection S) → is_server conn ≡ true → conn.connection_type ≡ connection_request
  unfolding is_server
  type_of conn e = is_request_iff conn.connection_type (and_left _ _ e)

  get_header-request :
      (conn : Connection S) (name : Bytes)
      → conn.connection_type ≡ connection_request
      → mg_get_header conn name ≡ get_header conn.request_headers name
  unfolding mg_get_header
  get_header-request conn name e = rw e refl

  http_version-request :
      (conn : Connection S)
      → conn.connection_type ≡ connection_request
      → get_http_version conn ≡ conn.request_http_version
  unfolding get_http_version
  http_version-request conn e = rw e refl

module _ {S : Type 0} where
  pub suggest-connection_value :
      (conn : Connection S)
      → is_server conn ≡ true
      → suggest_connection_header conn
        ≡ connection_value conn.must_close conn.enable_keep_alive conn.request_headers
            conn.request_http_version
  unfolding suggest_connection_header should_keep_alive
  suggest-connection_value conn e =
      let t = type_of conn e in
      rw
        (
          get_header-request conn (codes "Connection") t,
          http_version-request conn t,
          get_header-eq (codes "Connection") conn.request_headers,
          is_named-eq conn.enable_keep_alive (codes "yes"),
        )
        (ap (λ b. if b then codes "keep-alive" else codes "close")
          (keep_tests conn.must_close (is_named conn.enable_keep_alive (codes "yes"))
            (first_of (values_of (codes "Connection") conn.request_headers))
            conn.request_http_version))

-- What is kept from one connection to the next, but for the fields that the code writes.
pub record Kept {S : Type 0} (conn next : Connection S) : Type 0 where
  pub server : is_server next ≡ is_server conn
  pub version : next.request_http_version ≡ conn.request_http_version
  pub suggests : suggest_connection_header next ≡ suggest_connection_header conn

module _ {S : Type 0} where
  pub Kept-trans : (a b c : Connection S) → Kept a b → Kept b c → Kept a c
  Kept-trans a b c p q = record {
    server = q.server ∙ p.server;
    version = q.version ∙ p.version;
    suggests = q.suggests ∙ p.suggests;
  }

  pub Kept-written :
      (conn : Connection S) (state : ℕ) (status : ℤ) (hs : List Header) (sent : S)
      → is_server conn ≡ true
      → Kept conn (record conn {
        request_state = state;
        status_code = status;
        response_headers = hs;
        sent = sent;
      })
  unfolding is_server suggest_connection_header should_keep_alive
  Kept-written conn state status hs sent e =
      let next = record conn {
        request_state = state;
        status_code = status;
        response_headers = hs;
        sent = sent;
      } in
      let t = type_of conn e in
      record {
        server = refl;
        version = refl;
        suggests =
            rw
              (
                get_header-request next (codes "Connection") t,
                http_version-request next t,
                get_header-request conn (codes "Connection") t,
                http_version-request conn t,
              )
              refl;
      }

-- `out` is what has been sent; everything that is written is sent.
module _ {S : Type 0} (mg_write : Bytes → S → ℤ × S) (out : S → Bytes)
    (sends : (s : Bytes) (x : S) → (mg_write s x).0 ≡ pos (length s))
    (appends : (s : Bytes) (x : S) → out (mg_write s x).1 ≡ out x ++ s) where
  -- The next connection, behind what has sent a text.
  pub record Sends (s : Bytes) (conn next : Connection S) : Type 0 where
    pub kept : Kept conn next
    pub text : out next.sent ≡ out conn.sent ++ s
    pub headers : next.response_headers ≡ conn.response_headers

  Sends-trans :
      (s t : Bytes) (a b c : Connection S) → Sends s a b → Sends t b c → Sends (s ++ t) a c
  Sends-trans s t a b c p q = record {
    kept = Kept-trans a b c p.kept q.kept;
    text = q.text ∙ ap (λ l. l ++ t) p.text ∙ append_assoc (out a.sent) s t;
    headers = q.headers ∙ p.headers;
  }

  print-Sends :
      (s : Bytes) (conn : Connection S)
      → is_server conn ≡ true
      → Sends s conn (mg_print mg_write s conn).1
  print-Sends s conn e = record {
    kept = Kept-written conn 10 conn.status_code conn.response_headers (mg_write s conn.sent).1 e;
    text = appends s conn.sent;
    headers = refl;
  }

  line-Sends :
      (h : Header) (conn : Connection S)
      → is_server conn ≡ true
      → Sends (line_of h) conn (mg_print mg_write (header_line_text h) conn).1
  line-Sends h conn e =
      subst (λ s. Sends s conn (mg_print mg_write (header_line_text h) conn).1) (line_of-eq h)
        (print-Sends (header_line_text h) conn e)

  send_headers-Sends :
      (hs : List Header) (conn : Connection S)
      → is_server conn ≡ true
      → Sends (header_texts hs) conn (send_headers mg_write hs conn)
  unfolding send_headers header_texts
  send_headers-Sends [] conn e = record {
    kept = record { server = refl; version = refl; suggests = refl };
    text = sym (append-nil (out conn.sent));
    headers = refl;
  }
  send_headers-Sends (h ∷ hs) conn e =
      let next = (mg_print mg_write (header_line_text h) conn).1 in
      let p = line-Sends h conn e in
      Sends-trans (line_of h) (header_texts hs) conn next (send_headers mg_write hs next) p
        (send_headers-Sends hs next (p.kept.server ∙ e))

  Sends-nothing : (conn : Connection S) → Sends [] conn conn
  Sends-nothing conn = record {
    kept = record { server = refl; version = refl; suggests = refl };
    text = sym (append-nil (out conn.sent));
    headers = refl;
  }

  one_text : (h : Header) → header_texts (h ∷ []) ≡ line_of h
  unfolding header_texts
  one_text h = append-nil (line_of h)

  no_text : header_texts [] ≡ []
  unfolding header_texts
  no_text = refl

  default-Sends :
      (name value : Bytes) (hs : List Header) (conn : Connection S)
      → is_server conn ≡ true
      → Sends
          (header_texts (default_header name value hs))
          conn
          (send_default mg_write name value hs conn)
  unfolding send_default
  default-Sends name value hs conn e =
      let h : Header = record { name = name; value = value } in
      let eq = has_header-eq name hs in
      elim (Bool-cases (is_nil (values_of name hs))) [
        | inl f ↦
            rw (eq, f)
              (subst (λ s. Sends s conn (mg_print mg_write (header_line_text h) conn).1)
                (sym (one_text h)) (line-Sends h conn e))
        | inr f ↦ rw (eq, f) (subst (λ s. Sends s conn conn) (sym no_text) (Sends-nothing conn))
      ]

  pub status_line-Sends :
      (conn : Connection S)
      → is_server conn ≡ true
      → ((send_http1_response_status_line mg_write conn).0 ≡ true)
        × Sends
            (status_line conn.status_code conn.request_http_version)
            conn
            (send_http1_response_status_line mg_write conn).1
  unfolding send_http1_response_status_line
  status_line-Sends conn e =
      let line = status_line conn.status_code conn.request_http_version in
      (
        ap (λ n. not (ltb_ℤ n 10)) (sends line conn.sent)
            ∙ not_short (length line) (status_line-long conn.status_code conn.request_http_version),
        print-Sends line conn e,
      )

  -- All that is sent behind the status line.
  pub send_rest-sent :
      (date : Bytes) (conn : Connection S)
      → is_server conn ≡ true
      → let next = send_rest mg_write date conn in
        let hs = conn.response_headers in
        Kept conn next
        × (out next.sent
            ≡ out conn.sent
              ++ (header_texts (all_headers date (suggest_connection_header conn) hs)
                  ++ (cr ∷ lf ∷ [])))
        × (next.request_state ≡ 3)
        × (next.response_headers ≡ [])
  unfolding send_rest
  send_rest-sent date conn e =
      let hs = conn.response_headers in
      let a = send_headers mg_write hs conn in
      let b = send_default mg_write (codes "Date") date hs a in
      let c = send_default mg_write (codes "Connection") (suggest_connection_header b) hs b in
      let d = (mg_print mg_write (cr ∷ lf ∷ []) c).1 in
      let to_a = send_headers-Sends hs conn e in
      let to_b = default-Sends (codes "Date") date hs a (to_a.kept.server ∙ e) in
      let conn_b = Sends-trans _ _ conn a b to_a to_b in
      let to_c =
        default-Sends (codes "Connection") (suggest_connection_header b) hs b
          (conn_b.kept.server ∙ e) in
      let conn_c = Sends-trans _ _ conn b c conn_b to_c in
      let conn_d =
        Sends-trans _ _ conn c d conn_c (print-Sends (cr ∷ lf ∷ []) c (conn_c.kept.server ∙ e)) in
      (
        Kept-trans conn d _ conn_d.kept
            (Kept-written d 3 d.status_code [] d.sent (conn_d.kept.server ∙ e)),
        (conn_d.text ∙ ap (λ l. out conn.sent ++ l) (rest_text date hs _ _ (conn_b.kept.suggests))),
        refl,
        refl,
      )

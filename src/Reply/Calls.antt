-- ===== src/Reply/Calls.antt =====
-- Sequences of calls of src/response.inl, compared with the description in Reply/Phases.
use civetweb.Base.{Bool-cases, Bytes, List, Option, [], ap, append-nil, append_assoc, ap₂, arith}
use civetweb.Base.{if◌then◌else◌, inl, inr, length, length-take, none, pos, refl, some, subst}
use civetweb.Base.{sym, take, true, ℤ, ◌++◌, ◌∙◌, ◌∷◌, ◌≡◌, ◌≤◌}
use civetweb.Http.{Header, HeaderList, parse_http_headers, max_headers}
use civetweb.Reply.{
  Connection, is_server, suggest_connection_header, mg_response_header_start,
  mg_response_header_add, add_parsed, mg_response_header_add_lines, send_rest,
  mg_response_header_send, send_http1_response_status_line,
}
use civetweb.Reply.Sent.{
  all_headers, header_texts, suggest-connection_value, Kept, Kept-trans, Kept-written,
  status_line-Sends, send_rest-sent,
}
use civetweb.Reply.Lines.{add_loop-headers}
use civetweb.Reply.Phases.{
  Call, starts, adds, adds_lines, sends_at, call, calls, Phase, idle, building, over, with_lines,
  next_phase, call_text, calls_text, InPhase, adds-idle, adds-over, head-same,
}
use civetweb.Reply.Effects.{
  another, no_headers, start-bad, start-late, start-opens, add-late, add-null, add-appends,
  lines-late, send-late, send-sends,
}
use civetweb.Reply.Parts.{is_status, value_of, crlf, connection_value}

module _ {S : Type 0} (mg_write : Bytes → S → ℤ × S) (out : S → Bytes)
    (sends : (s : Bytes) (x : S) → (mg_write s x).0 ≡ pos (length s))
    (appends : (s : Bytes) (x : S) → out (mg_write s x).1 ≡ out x ++ s) where
  -- One call, seen from outside.
  record Follows (k : Call) (p : Phase) (conn next : Connection S) : Type 0 where
    kept : Kept conn next
    text :
        out next.sent
        ≡ out conn.sent ++ call_text conn.request_http_version (suggest_connection_header conn) k p
    in_phase : InPhase (next_phase k p) next

  nothing_text : (conn : Connection S) → out conn.sent ≡ out conn.sent ++ []
  nothing_text conn = sym (append-nil (out conn.sent))

  Kept-refl : (conn : Connection S) → Kept conn conn
  Kept-refl conn = record { server = refl; version = refl; suggests = refl }

  Follows-same :
      (k : Call) (p : Phase) (conn next : Connection S)
      → call_text conn.request_http_version (suggest_connection_header conn) k p ≡ []
      → next_phase k p ≡ p
      → InPhase p conn
      → next ≡ conn
      → Follows k p conn next
  Follows-same k p conn next t n z e = subst (Follows k p conn) (sym e) (record {
    kept = Kept-refl conn;
    text = nothing_text conn ∙ ap (λ l. out conn.sent ++ l) (sym t);
    in_phase = subst (λ q. InPhase q conn) (sym n) z;
  })

  -- More headers behind those that are there.
  headers-Follow :
      (k : Call) (new : List Header) (st : ℤ) (hs : List Header) (conn : Connection S)
      → is_server conn ≡ true
      → InPhase (building st hs) conn
      → next_phase k (building st hs) ≡ building st (take max_headers (hs ++ new))
      → call_text conn.request_http_version (suggest_connection_header conn) k (building st hs) ≡ []
      → Follows k
          (building st hs)
          conn
          (record conn { response_headers = take max_headers (conn.response_headers ++ new) })
  headers-Follow k new st hs conn e (one, same, old, room) n t = record {
    kept =
        Kept-written conn conn.request_state conn.status_code
          (take max_headers (conn.response_headers ++ new)) conn.sent e;
    text = nothing_text conn ∙ ap (λ l. out conn.sent ++ l) (sym t);
    in_phase =
        subst
          (λ q.
            InPhase q
              (record conn { response_headers = take max_headers (conn.response_headers ++ new) }))
          (sym n)
          (
            one,
            same,
            ap (λ l. take max_headers (l ++ new)) old,
            omega (arith, length-take max_headers (hs ++ new)),
          );
  }

  start-Follows :
      (status : ℤ) (p : Phase) (conn : Connection S)
      → is_server conn ≡ true
      → InPhase p conn
      → Follows (starts status) p conn (mg_response_header_start status conn).1
  start-Follows status idle conn e z = elim (Bool-cases (is_status status)) [
    | inr f ↦ Follows-same (starts status) idle conn _ refl (rw f refl) z (start-bad status conn f)
    | inl f ↦
        subst (Follows (starts status) idle conn) (sym (start-opens status conn f e z)) (record {
          kept = Kept-written conn 1 status [] conn.sent e;
          text = nothing_text conn;
          in_phase =
              subst
                (λ b.
                  InPhase (if b then building status [] else idle) (record conn {
                    request_state = 1;
                    status_code = status;
                    response_headers = [];
                  }))
                (sym f) (refl, refl, refl, no_headers);
        })
  ]
  start-Follows status (building st hs) conn e z =
      Follows-same (starts status) (building st hs) conn _ refl refl z
        (start-late status conn (another _ 1 0 z.0 refl))
  start-Follows status over conn e z =
      Follows-same (starts status) over conn _ refl refl z
        (start-late status conn (another _ 3 0 z refl))

  adds-Follows :
      (header value : Option Bytes) (value_len : ℤ) (p : Phase) (conn : Connection S)
      → is_server conn ≡ true
      → InPhase p conn
      → Follows
          (adds header value value_len)
          p
          conn
          (mg_response_header_add header value value_len conn).1
  adds-Follows header value value_len idle conn e z =
      Follows-same (adds header value value_len) idle conn _ refl (adds-idle header value value_len)
        z (add-late header value value_len conn (another _ 0 1 z refl))
  adds-Follows header value value_len over conn e z =
      Follows-same (adds header value value_len) over conn _ refl (adds-over header value value_len)
        z (add-late header value value_len conn (another _ 3 1 z refl))
  adds-Follows none value value_len (building st hs) conn e z =
      Follows-same (adds none value value_len) (building st hs) conn _ refl refl z
        (add-null none value value_len conn (inl refl))
  adds-Follows (some header) none value_len (building st hs) conn e z =
      Follows-same (adds (some header) none value_len) (building st hs) conn _ refl refl z
        (add-null (some header) none value_len conn (inr refl))
  adds-Follows (some header) (some value) value_len (building st hs) conn e (one, same, old, room) =
      let h : Header = record { name = header; value = value_of value value_len } in
      let k = adds (some header) (some value) value_len in
      subst (Follows k (building st hs) conn)
        (sym (
          add-appends header value value_len conn e one
            (subst (λ l. length l ≤ max_headers) (sym old) room)))
        (headers-Follow k (h ∷ []) st hs conn e (one, same, old, room) refl refl)

  lines-Follow :
      (l : Option HeaderList) (lines : Bytes) (st : ℤ) (hs : List Header) (conn : Connection S)
      → is_server conn ≡ true
      → InPhase (building st hs) conn
      → parse_http_headers lines ≡ l
      → Follows (adds_lines lines) (building st hs) conn (add_parsed l conn).1
  lines-Follow none lines st hs conn e z q =
      Follows-same (adds_lines lines) (building st hs) conn conn refl (ap (with_lines st hs) q) z
        refl
  lines-Follow (some l) lines st hs conn e (one, same, old, room) q =
      subst (Follows (adds_lines lines) (building st hs) conn)
        (sym (
          add_loop-headers l.headers (pos (length l.headers)) conn e one
            (subst (λ l. length l ≤ max_headers) (sym old) room)))
        (headers-Follow (adds_lines lines) l.headers st hs conn e (one, same, old, room)
          (ap (with_lines st hs) q) refl)

  adds_lines-Follows :
      (lines : Bytes) (p : Phase) (conn : Connection S)
      → is_server conn ≡ true
      → InPhase p conn
      → Follows (adds_lines lines) p conn (mg_response_header_add_lines lines conn).1
  unfolding mg_response_header_add_lines
  adds_lines-Follows lines idle conn e z =
      Follows-same (adds_lines lines) idle conn _ refl refl z
        (lines-late lines conn (another _ 0 1 z refl))
  adds_lines-Follows lines over conn e z =
      Follows-same (adds_lines lines) over conn _ refl refl z
        (lines-late lines conn (another _ 3 1 z refl))
  adds_lines-Follows lines (building st hs) conn e z =
      lines-Follow (parse_http_headers lines) lines st hs conn e z refl

  sends-Follows :
      (date : Bytes) (p : Phase) (conn : Connection S)
      → is_server conn ≡ true
      → InPhase p conn
      → Follows (sends_at date) p conn (mg_response_header_send mg_write date conn).1
  sends-Follows date idle conn e z =
      Follows-same (sends_at date) idle conn _ refl refl z
        (send-late mg_write date conn (another _ 0 1 z refl))
  sends-Follows date over conn e z =
      Follows-same (sends_at date) over conn _ refl refl z
        (send-late mg_write date conn (another _ 3 1 z refl))
  sends-Follows date (building st hs) conn e (one, same, old, room) =
      let begun = record conn { request_state = 2 } in
      let k = Kept-written conn 2 conn.status_code conn.response_headers conn.sent e in
      let (ok, line) = status_line-Sends mg_write out sends appends begun (k.server ∙ e) in
      let next = (send_http1_response_status_line mg_write begun).1 in
      let to_next = Kept-trans conn begun next k line.kept in
      let tail =
        header_texts (all_headers date (suggest_connection_header next) next.response_headers)
        ++ crlf in
      let (kept, text, over_now, none_left) =
        send_rest-sent mg_write out sends appends date next (to_next.server ∙ e) in
      subst (Follows (sends_at date) (building st hs) conn)
        (sym (send-sends mg_write date conn e one ok))
        (record {
          kept = Kept-trans conn next (send_rest mg_write date next) to_next kept;
          text =
              text
              ∙ ap (λ l. l ++ tail) line.text
              ∙ append_assoc (out conn.sent) _ tail
              ∙ ap (λ l. out conn.sent ++ l)
                  (head-same date conn.request_http_version _ _ _ _ _ _ same to_next.suggests
                    (line.headers ∙ old));
          in_phase = over_now;
        })

  call-Follows :
      (k : Call) (p : Phase) (conn : Connection S)
      → is_server conn ≡ true
      → InPhase p conn
      → Follows k p conn (call mg_write k conn)
  call-Follows (starts status) p conn e z = start-Follows status p conn e z
  call-Follows (adds header value value_len) p conn e z =
      adds-Follows header value value_len p conn e z
  call-Follows (adds_lines lines) p conn e z = adds_lines-Follows lines p conn e z
  call-Follows (sends_at date) p conn e z = sends-Follows date p conn e z

  calls-text_from :
      (ks : List Call) (p : Phase) (conn : Connection S)
      → is_server conn ≡ true
      → InPhase p conn
      → out (calls mg_write ks conn).sent
        ≡ out conn.sent
          ++ calls_text conn.request_http_version (suggest_connection_header conn) ks p
  unfolding calls calls_text
  calls-text_from [] p conn e z = nothing_text conn
  calls-text_from (k ∷ ks) p conn e z =
      let next = call mg_write k conn in
      let f = call-Follows k p conn e z in
      let v = conn.request_http_version in
      let c = suggest_connection_header conn in
      calls-text_from ks (next_phase k p) next (f.kept.server ∙ e) f.in_phase
      ∙ ap₂ (λ a b. out next.sent ++ calls_text a b ks (next_phase k p)) f.kept.version
          f.kept.suggests
      ∙ ap (λ l. l ++ calls_text v c ks (next_phase k p)) f.text
      ∙ append_assoc (out conn.sent) (call_text v c k p) (calls_text v c ks (next_phase k p))

  -- On a connection of a server that is no WebSocket and on which nothing has been sent, and where all
  -- that is written is sent: whatever calls are made, in any order and with any arguments, they send
  -- nothing until a response that has been started is sent, then one head and then nothing more. The
  -- head has the first status between 100 and 999 with the text that the code has for it, the lines
  -- `name: value` of the added headers in order, as many as there is room for (64; those of added
  -- lines are what `parse_http_headers` reads), and the headers Date and Connection where none of that
  -- name is there, in any case of letters. Connection is keep-alive if the connection need not be
  -- closed, the option enable_keep_alive is `yes` and the request has keep-alive in its Connection
  -- header, as `header_has_option` finds it, or without that header the version 1.1; else it is close.
  pub calls-calls_text :
      (ks : List Call) (conn : Connection S)
      → is_server conn ≡ true
      → conn.request_state ≡ 0
      → out (calls mg_write ks conn).sent
        ≡ out conn.sent
          ++ calls_text conn.request_http_version
              (connection_value conn.must_close conn.enable_keep_alive conn.request_headers
                conn.request_http_version)
              ks
              idle
  calls-calls_text ks conn e z =
      calls-text_from ks idle conn e z
      ∙ ap (λ v. out conn.sent ++ calls_text conn.request_http_version v ks idle)
          (suggest-connection_value conn e)

-- ===== src/Examples/Site.antt =====
-- The theorems on dates, option lists, the table of handlers, responses and form data at inputs.
use civetweb.Base.{Bytes, IsText-of, List, [], arith, codes, false, get_elem?, length, ltb}
use civetweb.Base.{ltb→lt, negsuc, none, pos, refl, some, take, true, ℕ, ℤ, ◌++◌, ◌<◌, ◌^◌}
use civetweb.Base.{◌↔◌, ◌∷◌, ◌≡◌, ◌≤◌}
use civetweb.Http.{Header, parse_http_headers, max_headers}
use civetweb.Calendar.{timegm, is_leap}
use civetweb.Calendar.Count.{tm_at, IsTime, seconds_at, timegm-seconds_at}
use civetweb.Options.{next_option, header_has_option}
use civetweb.Options.Entries.{entries, IsNext, next_option-IsNext}
use civetweb.Options.Header.{Some, IsPrefix, header_has_option_iff}
use civetweb.Handlers.{
  request_handler, auth_handler, Callbacks, HandlerInfo, nulls, new_handler, set_attempt,
  mg_set_handler_type, get_request_handler, search_pass, same_type, matches_exactly, matches_partly,
  take_handler, is_key, replace,
}
use civetweb.Ctype.{str_eq, starts_with}
use civetweb.Handlers.Lookup.{lookup, Sets, set_attempt-Sets}
use civetweb.Handlers.Steps.{held_of, start, changed, postponed, handed_out, IsSound, Run-IsSound}
use civetweb.Reply.{
  Connection, connection_request, protocol_http1, is_server, mg_response_header_add_lines,
}
use civetweb.Reply.Lines.{mg_response_header_add_lines-Adds}
use civetweb.Reply.Phases.{Call, starts, adds, adds_lines, sends_at, calls, calls_text, idle}
use civetweb.Reply.Parts.{connection_value}
use civetweb.Reply.Calls.{calls-calls_text}
use civetweb.Form.{FormField, is_key_char, mg_split_form_urlencoded, mg_get_var2}
use civetweb.Form.Vars.{Answers, values_of, mg_get_var2-form_text}
use civetweb.Form.Split.{form_text, mg_split_form_urlencoded-form_text}
use civetweb.Sort.{mg_sort}
use civetweb.Sort.Keeps.{Same}
use civetweb.Sort.Sorted.{IsSorted, mg_sort-IsSorted}

leap_day : IsTime 54 1 28 12 30 59
unfolding is_leap
leap_day = (ltb→lt 1 12 refl, ltb→lt 28 29 refl, ltb→lt 12 24 refl, ltb→lt 30 60 refl, omega arith)

-- 29 February 2024, 12:30:59
timegm-seconds_at_example : timegm (tm_at 54 1 28 12 30 59) ≡ pos (seconds_at 54 1 28 12 30 59)
timegm-seconds_at_example = timegm-seconds_at 54 1 28 12 30 59 leap_day

abbrev options : Bytes
options = codes "upgrade=h2c , ,Keep"

next_option-IsNext_example : IsNext true options (next_option true options)
next_option-IsNext_example = next_option-IsNext true options

header_has_option_iff_example :
    (header_has_option (some options) (codes "keep-alive") ≡ true)
    ↔ Some (IsPrefix (codes "keep-alive")) (entries options)
header_has_option_iff_example =
    header_has_option_iff options (codes "keep-alive") (IsText-of options refl)
      (IsText-of (codes "keep-alive") refl)

abbrev calls_seven : Callbacks ℕ
calls_seven = record nulls { handler = some 7 }

abbrev guarded : Callbacks ℕ
guarded = record nulls { auth = some 9 }

abbrev table : List (HandlerInfo ℕ ℕ)
table =
    new_handler auth_handler (codes "/a") guarded 1
    ∷ new_handler request_handler (codes "/a") calls_seven 2
    ∷ []

set_attempt-Sets_example :
    Sets request_handler
      (codes "/a")
      none
      table
      (set_attempt request_handler (codes "/a") true nulls 0 table)
unfolding lookup new_handler is_key same_type str_eq
set_attempt-Sets_example =
    set_attempt-Sets request_handler (codes "/a") true nulls 0 table (refl, (refl, tt))

abbrev one_handler : List (HandlerInfo ℕ ℕ)
one_handler = new_handler request_handler (codes "/a") calls_seven 2 ∷ []

abbrev in_use : HandlerInfo ℕ ℕ
in_use = record (new_handler request_handler (codes "/a") calls_seven 2) { refcount = 1 }

-- A handler is set, handed out for a path below it, and then to be removed.
Run-IsSound_example :
    IsSound
      (record in_use { removing = true } ∷ [])
      (held_of (new_handler request_handler (codes "/a") calls_seven 2) ∷ [])
unfolding mg_set_handler_type get_request_handler search_pass same_type new_handler matches_exactly
    str_eq matches_partly starts_with take_handler is_key replace
Run-IsSound_example =
    Run-IsSound (record in_use { removing = true } ∷ [])
      (held_of (new_handler request_handler (codes "/a") calls_seven 2) ∷ [])
      (postponed request_handler (codes "/a") true nulls 0
        (handed_out (codes "/a/b")
          (changed request_handler (codes "/a") false calls_seven 2 start refl) refl)
        refl)

abbrev connection : Connection Bytes
connection = record {
  connection_type = connection_request;
  protocol_type = protocol_http1;
  request_state = 0;
  must_close = false;
  enable_keep_alive = codes "yes";
  request_http_version = some (codes "1.1");
  response_http_version = none;
  request_headers = [];
  response_headers = [];
  status_code = pos 0;
  sent = [];
}

abbrev two_lines : Bytes
two_lines = codes "A: b" ++ (13 ∷ 10 ∷ (codes "C: d" ++ (13 ∷ 10 ∷ [])))

abbrev two_headers : List Header
two_headers =
    record { name = codes "A"; value = codes "b" }
    ∷ record { name = codes "C"; value = codes "d" }
    ∷ []

mg_response_header_add_lines-Adds_example :
    let r = mg_response_header_add_lines two_lines (record connection { request_state = 1 }) in
    (r.1 ≡ record connection { request_state = 1; response_headers = take max_headers two_headers })
    × (2 ≤ max_headers → r.0 ≡ pos 2)
    × (max_headers < 2 → r.0 ≡ negsuc 3)
unfolding is_server parse_http_headers
mg_response_header_add_lines-Adds_example =
    mg_response_header_add_lines-Adds two_lines (record { headers = two_headers; rest = [] })
      (record connection { request_state = 1 }) refl refl (omega arith) refl

abbrev write_all : Bytes → Bytes → ℤ × Bytes
write_all s out = (pos (length s), out ++ s)

abbrev session : List Call
session =
    adds (some (codes "A")) (some (codes "b")) (negsuc 0)
    ∷ starts (pos 404)
    ∷ adds_lines two_lines
    ∷ sends_at (codes "now")
    ∷ starts (pos 200)
    ∷ []

calls-calls_text_example :
    (calls write_all session connection).sent
    ≡ calls_text
        (some (codes "1.1"))
        (connection_value connection.must_close connection.enable_keep_alive
          connection.request_headers connection.request_http_version)
        session
        idle
unfolding is_server
calls-calls_text_example =
    calls-calls_text write_all (λ out. out) (λ s x. refl) (λ s x. refl) session connection refl refl

abbrev fields : List FormField
fields =
    record { name = codes "a b"; value = some (codes "1&2=3") }
    ∷ record { name = codes "c"; value = none }
    ∷ []

mg_split_form_urlencoded-form_text_example :
    mg_split_form_urlencoded (some (form_text fields)) true 5
    ≡ record { ret = pos (length fields); fields = fields }
mg_split_form_urlencoded-form_text_example =
    mg_split_form_urlencoded-form_text fields 5
      (
        ((λ e. cc), (IsText-of (codes "a b") refl, IsText-of (codes "1&2=3") refl)),
        (((λ e. cc), (IsText-of (codes "c") refl, tt)), tt),
      )
      (ltb→lt 0 5 refl) (ltb→lt 5 (2 ^ 31) refl) (omega arith)

abbrev asked : List FormField
asked =
    record { name = codes "q"; value = some (codes "1") }
    ∷ record { name = codes "Q"; value = some (codes "a b") }
    ∷ []

mg_get_var2-form_text_example :
    Answers 9
      (get_elem? (values_of (codes "q") asked) 1)
      (mg_get_var2 (some (form_text asked)) (some (codes "q")) 9 1)
unfolding is_key_char
mg_get_var2-form_text_example =
    mg_get_var2-form_text (codes "q") asked 9 1 (IsText-of (codes "q") refl) (refl, tt)
      (
        ((λ e. cc), (IsText-of (codes "q") refl, IsText-of (codes "1") refl)),
        (((λ e. cc), (IsText-of (codes "Q") refl, IsText-of (codes "a b") refl)), tt),
      )
      (ltb→lt 0 9 refl)

mg_sort-IsSorted_example :
    IsSorted (λ x y. ltb y x) (mg_sort (λ x y. ltb y x) (3 ∷ 1 ∷ 2 ∷ []))
    × Same (mg_sort (λ x y. ltb y x) (3 ∷ 1 ∷ 2 ∷ [])) (3 ∷ 1 ∷ 2 ∷ [])
mg_sort-IsSorted_example =
    mg_sort-IsSorted (λ x y. ltb y x) (λ x y e. ground arith) (3 ∷ 1 ∷ 2 ∷ [])

-- ===== src/Reply/Parts.antt =====
-- The parts of a response of src/response.inl, described without its code.
use civetweb.Base.{Bool, Bool-cases, Bytes, List, Option, [], ap, arith, codes, false}
use civetweb.Base.{if◌then◌else◌, inl, inr, leb, negsuc, none, not, pos, refl, some, take, true}
use civetweb.Base.{ℤ, ◌&&◌, ◌++◌, ◌==◌, ◌↔◌, ◌∷◌, ◌≡◌}
use civetweb.Ctype.{tolower, str_eq, str_eq_iff, tolower-zero_iff}
use civetweb.Text.{is_zero, mg_strcasecmp}
use civetweb.Text.Compare.{case_diff-eq-zero_iff, lowercase-tolower, lowercase_zero, lowercase-pos}
use civetweb.Text.Search.{is_zero_iff}
use civetweb.Options.{header_has_option}
use civetweb.Http.{Header}
use civetweb.Http.Response.RoundTrip.{three_digits}
use civetweb.Http.Lookup.{get_header}
use civetweb.Reply.Codes.{mg_get_response_code_text}
use civetweb.Reply.{
  header_line_text, is_bad_status, is_some, is_version, digits, valid_code, status_line, has_header,
  copied_value,
}

-- A text up to its first zero byte, with small letters in place of capital ones.
unfoldable pub small_letters : Bytes → Bytes
small_letters [] = []
small_letters (c ∷ s) = let rest = tolower c ∷ small_letters s in if c == 0 then [] else rest

abbrev pub is_named : Bytes → Bytes → Bool
is_named name other = str_eq (small_letters name) (small_letters other)

-- The values of the headers with a name.
unfoldable pub values_of : Bytes → List Header → List Bytes
values_of name [] = []
values_of name (h ∷ hs) =
    let later = values_of name hs in if is_named name h.name then h.value ∷ later else later

abbrev pub first_of : List Bytes → Option Bytes
first_of [] = none
first_of (v ∷ vs) = some v

abbrev pub is_nil : List Bytes → Bool
is_nil [] = true
is_nil (v ∷ vs) = false

abbrev pub crlf : Bytes
crlf = 13 ∷ 10 ∷ []

-- The line of a header.
abbrev pub line_of : Header → Bytes
line_of h = h.name ++ (codes ": " ++ (h.value ++ crlf))

abbrev pub is_status : ℤ → Bool
is_status (pos n) = leb 100 n && leb n 999
is_status (negsuc n) = false

abbrev pub printed_status : ℤ → Bytes
printed_status (pos n) = if is_status (pos n) then three_digits n else codes "500"
printed_status (negsuc n) = codes "500"

abbrev pub printed_version : Option Bytes → Bytes
printed_version none = codes "1.0"
printed_version (some v) = v

-- The first line of a response.
abbrev pub first_line : ℤ → Option Bytes → Bytes
first_line status version =
    codes "HTTP/"
    ++ (printed_version version
        ++ (codes " "
            ++ (printed_status status
                ++ (codes " " ++ (mg_get_response_code_text status ++ crlf)))))

-- A value with its length, where a negative one stands for the whole text.
abbrev pub value_of : Bytes → ℤ → Bytes
value_of value (pos n) = take n value
value_of value (negsuc n) = value

-- Whether the client is to keep the connection: what the request says, or else what its version does.
abbrev pub is_kept : Option Bytes → Option Bytes → Bool
is_kept (some connection) version = header_has_option (some connection) (codes "keep-alive")
is_kept none none = false
is_kept none (some version) = str_eq version (codes "1.1")

-- The value of the Connection header.
abbrev pub connection_value : Bool → Bytes → List Header → Option Bytes → Bytes
connection_value must_close enable_keep_alive request_headers version =
    if not must_close
      && (is_named enable_keep_alive (codes "yes")
          && is_kept (first_of (values_of (codes "Connection") request_headers)) version)
    then codes "keep-alive"
    else codes "close"

-- The tests of the code, one after the other.
pub keep_tests :
    (must_close enabled : Bool) (connection version : Option Bytes)
    → (if must_close
        then false
        else if not enabled
        then false
        else if is_some connection
        then header_has_option connection (codes "keep-alive")
        else is_version version (codes "1.1"))
      ≡ (not must_close && (enabled && is_kept connection version))
keep_tests true enabled connection version = refl
keep_tests false false connection version = refl
keep_tests false true (some c) version = refl
keep_tests false true none (some v) = refl
keep_tests false true none none = refl

eq-same : (a b : Bool) → ((a ≡ true) ↔ (b ≡ true)) → a ≡ b
eq-same true true h = refl
eq-same true false h = ground arith
eq-same false true h = ground arith
eq-same false false h = refl

pub line_of-eq : (h : Header) → header_line_text h ≡ line_of h
unfolding header_line_text
line_of-eq h = refl

pub is_status-eq : (status : ℤ) → is_bad_status status ≡ not (is_status status)
is_status-eq (pos n) = ground arith
is_status-eq (negsuc n) = refl

pub value_of-eq :
    (value : Bytes) (value_len : ℤ) → copied_value value value_len ≡ value_of value value_len
value_of-eq value (pos n) = refl
value_of-eq value (negsuc n) = refl

printed-eq : (status : ℤ) → digits (valid_code status) ≡ printed_status status
printed-eq (negsuc n) = refl
printed-eq (pos n) = elim (Bool-cases (is_status (pos n))) [
  | inl e ↦ rw (is_status-eq (pos n), e) refl
  | inr e ↦ rw (is_status-eq (pos n), e) refl
]

pub first_line-eq :
    (status : ℤ) (version : Option Bytes) → status_line status version ≡ first_line status version
unfolding status_line
first_line-eq status none =
    ap (λ d. codes "HTTP/1.0 " ++ (d ++ (codes " " ++ (mg_get_response_code_text status ++ crlf))))
      (printed-eq status)
first_line-eq status (some v) =
    ap
      (λ d.
        codes "HTTP/"
        ++ (v ++ (codes " " ++ (d ++ (codes " " ++ (mg_get_response_code_text status ++ crlf))))))
      (printed-eq status)

compare-eq-zero_iff :
    (s t : Bytes) → (mg_strcasecmp s t ≡ pos 0) ↔ (small_letters s ≡ small_letters t)
unfolding mg_strcasecmp small_letters
compare-eq-zero_iff [] [] = ground (arith, case_diff-eq-zero_iff [] [])
compare-eq-zero_iff [] (d ∷ t) =
    ground (
      arith,
      case_diff-eq-zero_iff [] (d ∷ t),
      lowercase-tolower d,
      lowercase-pos d,
      lowercase_zero,
    )
compare-eq-zero_iff (c ∷ s) [] =
    ground (
      arith,
      case_diff-eq-zero_iff (c ∷ s) [],
      lowercase-tolower c,
      lowercase-pos c,
      lowercase_zero,
    )
compare-eq-zero_iff (c ∷ s) (d ∷ t) = ground (
  arith,
  case_diff-eq-zero_iff (c ∷ s) (d ∷ t),
  lowercase-tolower c,
  lowercase-tolower d,
  tolower-zero_iff c,
  tolower-zero_iff d,
  compare-eq-zero_iff s t,
)

pub is_named-eq : (s t : Bytes) → is_zero (mg_strcasecmp s t) ≡ is_named s t
is_named-eq s t = eq-same _ _ (
    ground (
      arith,
      is_zero_iff (mg_strcasecmp s t),
      compare-eq-zero_iff s t,
      str_eq_iff (small_letters s) (small_letters t),
    ))

picked :
    (b : Bool) (v : Bytes) (vs : List Bytes)
    → (if b then true else not (is_nil vs)) ≡ not (is_nil (if b then v ∷ vs else vs))
picked true v vs = refl
picked false v vs = refl

first_picked :
    (b : Bool) (v : Bytes) (vs : List Bytes)
    → (if b then some v else first_of vs) ≡ first_of (if b then v ∷ vs else vs)
first_picked true v vs = refl
first_picked false v vs = refl

pub has_header-eq :
    (name : Bytes) (hs : List Header) → has_header name hs ≡ not (is_nil (values_of name hs))
unfolding has_header values_of
has_header-eq name [] = refl
has_header-eq name (h ∷ hs) =
    rw (is_named-eq name h.name, has_header-eq name hs)
      (picked (is_named name h.name) h.value (values_of name hs))

pub get_header-eq :
    (name : Bytes) (hs : List Header) → get_header hs name ≡ first_of (values_of name hs)
unfolding get_header values_of
get_header-eq name [] = refl
get_header-eq name (h ∷ hs) =
    rw (is_named-eq name h.name, get_header-eq name hs)
      (first_picked (is_named name h.name) h.value (values_of name hs))

-- ===== src/Reply/Codes.antt =====
-- mg_get_response_code_text of src/civetweb.c; the message to the log is left out.
use civetweb.Base.{Bool, Bytes, List, Option, [], codes, false, if◌then◌else◌, ltb_ℤ, none, not}
use civetweb.Base.{pos, some, ℕ, ℤ, ◌&&◌, ◌+◌, ◌==◌, ◌∷◌}

-- The cases of the switch, in the order they are written in.
abbrev code_texts : List (ℤ × Bytes)
code_texts =
    (pos 100, codes "Continue")
    ∷ (pos 101, codes "Switching Protocols")
    ∷ (pos 102, codes "Processing")
    ∷ (pos 200, codes "OK")
    ∷ (pos 201, codes "Created")
    ∷ (pos 202, codes "Accepted")
    ∷ (pos 203, codes "Non-Authoritative Information")
    ∷ (pos 204, codes "No Content")
    ∷ (pos 205, codes "Reset Content")
    ∷ (pos 206, codes "Partial Content")
    ∷ (pos 207, codes "Multi-Status")
    ∷ (pos 208, codes "Already Reported")
    ∷ (pos 226, codes "IM used")
    ∷ (pos 300, codes "Multiple Choices")
    ∷ (pos 301, codes "Moved Permanently")
    ∷ (pos 302, codes "Found")
    ∷ (pos 303, codes "See Other")
    ∷ (pos 304, codes "Not Modified")
    ∷ (pos 305, codes "Use Proxy")
    ∷ (pos 307, codes "Temporary Redirect")
    ∷ (pos 308, codes "Permanent Redirect")
    ∷ (pos 400, codes "Bad Request")
    ∷ (pos 401, codes "Unauthorized")
    ∷ (pos 402, codes "Payment Required")
    ∷ (pos 403, codes "Forbidden")
    ∷ (pos 404, codes "Not Found")
    ∷ (pos 405, codes "Method Not Allowed")
    ∷ (pos 406, codes "Not Acceptable")
    ∷ (pos 407, codes "Proxy Authentication Required")
    ∷ (pos 408, codes "Request Time-out")
    ∷ (pos 409, codes "Conflict")
    ∷ (pos 410, codes "Gone")
    ∷ (pos 411, codes "Length Required")
    ∷ (pos 412, codes "Precondition Failed")
    ∷ (pos 413, codes "Request Entity Too Large")
    ∷ (pos 414, codes "Request-URI Too Large")
    ∷ (pos 415, codes "Unsupported Media Type")
    ∷ (pos 416, codes "Requested range not satisfiable")
    ∷ (pos 417, codes "Expectation Failed")
    ∷ (pos 421, codes "Misdirected Request")
    ∷ (pos 422, codes "Unproccessable entity")
    ∷ (pos 423, codes "Locked")
    ∷ (pos 424, codes "Failed Dependency")
    ∷ (pos 426, codes "Upgrade Required")
    ∷ (pos 428, codes "Precondition Required")
    ∷ (pos 429, codes "Too Many Requests")
    ∷ (pos 431, codes "Request Header Fields Too Large")
    ∷ (pos 451, codes "Unavailable For Legal Reasons")
    ∷ (pos 500, codes "Internal Server Error")
    ∷ (pos 501, codes "Not Implemented")
    ∷ (pos 502, codes "Bad Gateway")
    ∷ (pos 503, codes "Service Unavailable")
    ∷ (pos 504, codes "Gateway Time-out")
    ∷ (pos 505, codes "HTTP Version not supported")
    ∷ (pos 506, codes "Variant Also Negotiates")
    ∷ (pos 507, codes "Insufficient Storage")
    ∷ (pos 508, codes "Loop Detected")
    ∷ (pos 510, codes "Not Extended")
    ∷ (pos 511, codes "Network Authentication Required")
    ∷ (pos 418, codes "I am a teapot")
    ∷ (pos 419, codes "Authentication Timeout")
    ∷ (pos 420, codes "Enhance Your Calm")
    ∷ (pos 440, codes "Login Timeout")
    ∷ (pos 509, codes "Bandwidth Limit Exceeded")
    ∷ []

abbrev same_code : ℤ → ℤ → Bool
same_code (pos a) (pos b) = a == b
same_code a b = false

unfoldable text_in : ℤ → List (ℤ × Bytes) → Option Bytes
text_in response_code [] = none
text_in response_code (row ∷ rows) =
    let later = text_in response_code rows in
    if same_code row.0 response_code then some row.1 else later

abbrev in_class : ℤ → ℕ → Bool
in_class response_code low = not (ltb_ℤ response_code low) && ltb_ℤ response_code (low + 100)

abbrev category : ℤ → Bytes
category response_code =
    if in_class response_code 100
    then codes "Information"
    else if in_class response_code 200
    then codes "Success"
    else if in_class response_code 300
    then codes "Redirection"
    else if in_class response_code 400
    then codes "Client Error"
    else if in_class response_code 500
    then codes "Server Error"
    else []

abbrev or_category : ℤ → Option Bytes → Bytes
or_category response_code none = category response_code
or_category response_code (some s) = s

unfoldable pub mg_get_response_code_text : ℤ → Bytes
unfolding text_in
mg_get_response_code_text response_code =
    or_category response_code (text_in response_code code_texts)

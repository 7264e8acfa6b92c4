-- ===== src/Http/Response/Whole.antt =====
-- parse_http_response of src/civetweb.c reads back a response that is written whole.
use civetweb.Base.{Bytes, codes}
use civetweb.Base.{◌++◌}
use civetweb.Http.Response.{ResponseInfo}
use civetweb.Http.Response.RoundTrip.{first_words}

-- The first line of the written head.
abbrev status_text_line : ResponseInfo → Bytes
status_text_line r = codes "HTTP/" ++ first_words r

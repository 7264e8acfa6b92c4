-- ===== src/Form/Cookie/Answer.antt =====
-- The answer of mg_get_cookie in src/civetweb.c.
use civetweb.Base.{Bytes, Option, [], drop, length}
use civetweb.Base.{negsuc, pos, some, ℕ, ◌+◌, ◌<◌, ◌≡◌}
use civetweb.Base.{◌≤◌, ◌⊎◌}
use civetweb.Form.Cookie.{Cookie}
use civetweb.Form.Cookie.Value.{IsValue}
use civetweb.Form.Cookie.First.{IsCookieAt}

-- The value behind a name is stored if it is shorter than the buffer.
abbrev pub IsStored : Bytes → ℕ → Cookie → Type 0
IsStored tail dst_size r =
    (v : Bytes) × IsValue tail v
    × (((length v < dst_size) × (r ≡ record { ret = pos (length v); dst = v }))
        ⊎ ((dst_size ≤ length v) × (r ≡ record { ret = negsuc 2; dst = [] })))

abbrev pub IsAnswer : Bytes → Bytes → ℕ → Cookie → Type 0
IsAnswer header name dst_size r =
    ((r ≡ record { ret = negsuc 0; dst = [] }) × ((j : ℕ) → ¬ IsCookieAt header name j))
    ⊎ ((j : ℕ) × IsCookieAt header name j
        × ((i : ℕ) → i < j → ¬ IsCookieAt header name i)
        × IsStored (drop (j + length name + 1) header) dst_size r)

abbrev pub Returns : Bytes → Bytes → ℕ → Option Cookie → Type 0
Returns header name dst_size o = (r : Cookie) × (o ≡ some r) × IsAnswer header name dst_size r

-- ===== src/Reply/Lines.antt =====
-- mg_response_header_add_lines of src/response.inl.
use civetweb.Base.{Bytes, List, [], ap, append-nil, append_assoc, arith, false, inl, inr, leb}
use civetweb.Base.{length, length-append, negsuc, pos, refl, some, suc, sym, take, true, zero, ℕ}
use civetweb.Base.{ℤ, ◌++◌, ◌+◌, ◌<◌, ◌∙◌, ◌∷◌, ◌≡◌, ◌≤◌, ◌⊎◌}
use civetweb.Http.{Header, HeaderList, parse_http_headers, max_headers}
use civetweb.Reply.{
  Connection, is_server, mg_response_header_add, first_error, add_loop, add_parsed,
  mg_response_header_add_lines,
}

leb-small : (a b : ℕ) → b < a → leb a b ≡ false
leb-small a b h = ground arith

leb-large : (a b : ℕ) → a ≤ b → leb a b ≡ true
leb-large a b h = ground arith

lt-or-le : (a b : ℕ) → (a < b) ⊎ (b ≤ a)
lt-or-le a b = ground arith

pub take-all : {A : Type 0} (n : ℕ) (xs : List A) → length xs ≤ n → take n xs ≡ xs
take-all zero [] h = refl
take-all zero (x ∷ xs) h = absurd (omega arith)
take-all (suc n) [] h = refl
take-all (suc n) (x ∷ xs) h = ap (λ l. x ∷ l) (take-all n xs (omega arith))

take-append_long :
    {A : Type 0} (n : ℕ) (xs ys zs : List A) → n ≤ length xs → take n (xs ++ ys) ≡ take n (xs ++ zs)
take-append_long zero xs ys zs h = refl
take-append_long (suc n) [] ys zs h = absurd (omega arith)
take-append_long (suc n) (x ∷ xs) ys zs h =
    ap (λ l. x ∷ l) (take-append_long n xs ys zs (omega arith))

-- Room for one more header, and none.
add-fits :
    {S : Type 0} (h : Header) (conn : Connection S)
    → is_server conn ≡ true
    → conn.request_state ≡ 1
    → length conn.response_headers < max_headers
    → mg_response_header_add (some h.name) (some h.value) (negsuc 0) conn
      ≡ (pos 0, record conn { response_headers = conn.response_headers ++ (h ∷ []) })
unfolding mg_response_header_add
add-fits h conn a b room = rw (a, b, leb-small _ _ room) refl

add-full :
    {S : Type 0} (h : Header) (conn : Connection S)
    → is_server conn ≡ true
    → conn.request_state ≡ 1
    → max_headers ≤ length conn.response_headers
    → mg_response_header_add (some h.name) (some h.value) (negsuc 0) conn ≡ (negsuc 3, conn)
unfolding mg_response_header_add
add-full h conn a b room = rw (a, b, leb-large _ _ room) refl

pub is_server-response_headers :
    {S : Type 0} (conn : Connection S) (hs : List Header)
    → is_server (record conn { response_headers = hs }) ≡ is_server conn
unfolding is_server
is_server-response_headers conn hs = refl

length-snoc : {A : Type 0} (xs : List A) (x : A) → length (xs ++ (x ∷ [])) ≡ length xs + 1
length-snoc xs x = length-append xs (x ∷ [])

pub add_loop-headers :
    {S : Type 0} (hs : List Header) (ret : ℤ) (conn : Connection S)
    → is_server conn ≡ true
    → conn.request_state ≡ 1
    → length conn.response_headers ≤ max_headers
    → (add_loop hs ret conn).1
      ≡ record conn { response_headers = take max_headers (conn.response_headers ++ hs) }
unfolding add_loop
add_loop-headers [] ret conn a b room =
    ap (λ l. record conn { response_headers = l })
      (sym (
        ap (take max_headers) (append-nil conn.response_headers)
        ∙ take-all max_headers conn.response_headers room))
add_loop-headers (h ∷ hs) ret conn a b room =
    let old = conn.response_headers in
    elim (lt-or-le (length old) max_headers) [
      | inl few ↦
          let next = record conn { response_headers = old ++ (h ∷ []) } in
          ap (λ p. (add_loop hs (first_error ret p.0) p.1).1) (add-fits h conn a b few)
          ∙ add_loop-headers hs (first_error ret (pos 0)) next
              (is_server-response_headers conn (old ++ (h ∷ [])) ∙ a) b
              (omega (arith, length-snoc old h))
          ∙ ap (λ l. record conn { response_headers = take max_headers l })
              (append_assoc old (h ∷ []) hs)
      | inr many ↦
          ap (λ p. (add_loop hs (first_error ret p.0) p.1).1) (add-full h conn a b many)
          ∙ add_loop-headers hs (first_error ret (negsuc 3)) conn a b room
          ∙ ap (λ l. record conn { response_headers = l })
              (take-append_long max_headers old hs (h ∷ hs) many)
    ]

-- The error code that is kept is the first one.
add_loop-error :
    {S : Type 0} (hs : List Header) (conn : Connection S)
    → is_server conn ≡ true
    → conn.request_state ≡ 1
    → max_headers ≤ length conn.response_headers
    → (add_loop hs (negsuc 3) conn).0 ≡ negsuc 3
unfolding add_loop
add_loop-error [] conn a b many = refl
add_loop-error (h ∷ hs) conn a b many =
    ap (λ p. (add_loop hs (first_error (negsuc 3) p.0) p.1).0) (add-full h conn a b many)
    ∙ add_loop-error hs conn a b many

first_error-zero : (ret : ℤ) → first_error ret (pos 0) ≡ ret
first_error-zero (pos zero) = refl
first_error-zero (pos (suc n)) = refl
first_error-zero (negsuc n) = refl

add_loop-fits :
    {S : Type 0} (hs : List Header) (ret : ℤ) (conn : Connection S)
    → is_server conn ≡ true
    → conn.request_state ≡ 1
    → length conn.response_headers + length hs ≤ max_headers
    → (add_loop hs ret conn).0 ≡ ret
unfolding add_loop
add_loop-fits [] ret conn a b room = refl
add_loop-fits (h ∷ hs) ret conn a b room =
    let old = conn.response_headers in
    let next = record conn { response_headers = old ++ (h ∷ []) } in
    ap (λ p. (add_loop hs (first_error ret p.0) p.1).0) (add-fits h conn a b (omega arith))
    ∙ ap (λ r. (add_loop hs r next).0) (first_error-zero ret)
    ∙ add_loop-fits hs ret next (is_server-response_headers conn (old ++ (h ∷ [])) ∙ a) b
        (omega (arith, length-snoc old h))

add_loop-overflows :
    {S : Type 0} (hs : List Header) (n : ℕ) (conn : Connection S)
    → is_server conn ≡ true
    → conn.request_state ≡ 1
    → length conn.response_headers ≤ max_headers
    → max_headers < length conn.response_headers + length hs
    → (add_loop hs (pos (suc n)) conn).0 ≡ negsuc 3
unfolding add_loop
add_loop-overflows [] n conn a b room many = absurd (omega arith)
add_loop-overflows (h ∷ hs) n conn a b room many =
    let old = conn.response_headers in
    elim (lt-or-le (length old) max_headers) [
      | inl few ↦
          let next = record conn { response_headers = old ++ (h ∷ []) } in
          ap (λ p. (add_loop hs (first_error (pos (suc n)) p.0) p.1).0) (add-fits h conn a b few)
          ∙ add_loop-overflows hs n next (is_server-response_headers conn (old ++ (h ∷ [])) ∙ a) b
              (omega (arith, length-snoc old h)) (omega (arith, length-snoc old h))
      | inr full ↦
          ap (λ p. (add_loop hs (first_error (pos (suc n)) p.0) p.1).0) (add-full h conn a b full)
          ∙ add_loop-error hs conn a b full
    ]

overflows :
    {S : Type 0} (hs : List Header) (conn : Connection S)
    → is_server conn ≡ true
    → conn.request_state ≡ 1
    → length conn.response_headers ≤ max_headers
    → max_headers < length conn.response_headers + length hs
    → (add_loop hs (pos (length hs)) conn).0 ≡ negsuc 3
overflows [] conn a b room many = absurd (omega arith)
overflows (h ∷ hs) conn a b room many = add_loop-overflows (h ∷ hs) (length hs) conn a b room many

-- When header lines are added between the start and the sending of a response and they can be
-- parsed, the connection holds the parsed headers, in order, behind those it had, as far as there is
-- room for max_headers of them; the result is the number of the lines if all have found room, and -4
-- if not.
pub mg_response_header_add_lines-Adds :
    {S : Type 0} (lines : Bytes) (l : HeaderList) (conn : Connection S)
    → is_server conn ≡ true
    → conn.request_state ≡ 1
    → length conn.response_headers ≤ max_headers
    → parse_http_headers lines ≡ some l
    → let r = mg_response_header_add_lines lines conn in
      let all = conn.response_headers ++ l.headers in
      (r.1 ≡ record conn { response_headers = take max_headers all })
      × (length all ≤ max_headers → r.0 ≡ pos (length l.headers))
      × (max_headers < length all → r.0 ≡ negsuc 3)
unfolding mg_response_header_add_lines
mg_response_header_add_lines-Adds lines l conn a b room e =
    let n = length-append conn.response_headers l.headers in
    let same = ap (λ p. add_parsed p conn) e in
    (
      ap (λ r. r.1) same ∙ add_loop-headers l.headers (pos (length l.headers)) conn a b room,
      (λ fits.
          ap (λ r. r.0) same
          ∙ add_loop-fits l.headers (pos (length l.headers)) conn a b (omega (arith, n, fits))),
      (λ many. ap (λ r. r.0) same ∙ overflows l.headers conn a b room (omega (arith, n, many))),
    )

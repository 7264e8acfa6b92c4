-- ===== src/Uri/Server.antt =====
-- The hosts that get_rel_url_at_current_server of src/civetweb.c takes for this server.
use civetweb.Base.{==_iff, All, All-append_left, Bytes, List, Option, [], ap, arith, drop}
use civetweb.Base.{get_elem?, if_split, inl, inr, length, length-append, ltb, negsuc, none, not}
use civetweb.Base.{peek, pos, refl, rest_of, some, subst, suc, sym, true, ℕ, ℤ, ◌++◌, ◌-◌, ◌<◌}
use civetweb.Base.{◌==◌, ◌||◌, ◌∙◌, ◌∷◌, ◌≡◌, ◌≢◌, ◌≤◌, ◌⊎◌}
use civetweb.Text.{is_zero, mg_strncasecmp}
use civetweb.Uri.Parts.{overlap, same_end, Found, strchr-Found, strtoul-IsEnd}
use civetweb.Ctype.{strtoul}
use civetweb.Uri.{is_valid_port, AbsUriProtocol, Origin, origin_at, find_origin}

-- What stands between a name and `rest`: nothing, or a colon and the number of the port.
abbrev pub HasPort : ℕ → ℕ → Bytes → Bytes → Type 0
HasPort default_port port text rest =
    (text ≡ []) × (port ≡ default_port)
    ⊎ (digits : Bytes) × (text ≡ b':' ∷ digits)
      × (strtoul (digits ++ rest) ≡ (port, rest))
      × (0 < port)
      × (port ≤ 0xffff)

abbrev pub IsNameChar : ℕ → Type 0
IsNameChar c = (c ≢ b'/') × (c ≢ b':')

-- The parts behind the protocol.
abbrev pub IsPlace : ℕ → ℕ → Bytes → Bytes → Bytes → Type 0
IsPlace default_port port behind host rest =
    (text : Bytes) × (behind ≡ host ++ (text ++ rest))
    × All IsNameChar host
    × HasPort default_port port text rest
    × (peek rest ≡ b'/')

-- The record that the loop over the protocols gives.
abbrev pub IsOrigin : ℕ → Bytes → Option Origin → Type 0
IsOrigin default_port behind none = Unit
IsOrigin default_port behind (some o) =
    (host : Bytes) × (o.hostbegin ≡ behind)
    × (o.request_domain_len ≡ length host)
    × IsPlace default_port o.port behind host o.hostend

is_zero-pos : (n : ℤ) → is_zero n ≡ true → n ≡ pos 0
is_zero-pos (pos n) e = ap pos ((==_iff n 0).0 e)
is_zero-pos (negsuc n) e = absurd (ground arith)

name_chars : (s : Bytes) → All (λ x. x ≢ b'/') s → All (λ x. x ≢ b':') s → All IsNameChar s
name_chars [] p q = tt
name_chars (c ∷ s) (p, ps) (q, qs) = ((p, q), name_chars s ps qs)

cut_length : (h f t : Bytes) → h ≡ f ++ t → length h - length t ≡ length f
cut_length h f t e = omega (arith, ap (λ r. length r) e, length-append f t)

without_port :
    (d : ℕ) (h f t : Bytes)
    → h ≡ f ++ t
    → All IsNameChar f
    → peek t ≡ b'/'
    → IsOrigin d h (
        some (record {
          port = d;
          request_domain_len = length h - length t;
          hostbegin = h;
          hostend = t;
        }))
without_port d h f t e all p = (f, refl, cut_length h f t e, ([], e, all, inl (refl, refl), p))

stops_at :
    (digits he : Bytes) (r : Bytes)
    → r ≡ digits ++ he
    → length (strtoul r).1 ≡ length he
    → strtoul (digits ++ he) ≡ ((strtoul r).0, he)
stops_at digits he r e l =
    subst (λ s. length (strtoul s).1 ≡ length he → strtoul (digits ++ he) ≡ ((strtoul s).0, he))
      (sym e)
      (λ q.
        let stop : (strtoul (digits ++ he)).1 ≡ he =
          same_end (digits ++ he) _ he (strtoul-IsEnd (digits ++ he)) (digits, refl) q in
        ap (λ s. ((strtoul (digits ++ he)).0, s)) stop)
      l

with_port :
    (d : ℕ) (h pb f mid he : Bytes)
    → h ≡ f ++ pb
    → pb ≡ mid ++ he
    → All IsNameChar f
    → peek pb ≡ b':'
    → peek he ≡ b'/'
    → length (strtoul (rest_of pb)).1 ≡ length he
    → 0 < (strtoul (rest_of pb)).0
    → (strtoul (rest_of pb)).0 ≤ 0xffff
    → IsOrigin d h (
        some (record {
          port = (strtoul (rest_of pb)).0;
          request_domain_len = length h - length pb;
          hostbegin = h;
          hostend = he;
        }))
with_port d h pb f [] he e back all colon slash l low high =
    absurd (omega (arith, colon, slash, ap peek back))
with_port d h pb f (c ∷ digits) he e back all colon slash l low high = (
  f,
  refl,
  cut_length h f pb e,
  (
    c ∷ digits,
    e ∙ ap (λ r. f ++ r) back,
    all,
    inr (
      digits,
      ap (λ x. x ∷ digits) (sym (ap peek back) ∙ colon),
      stops_at digits he (rest_of pb) (ap rest_of back) l,
      low,
      high,
    ),
    slash,
  ),
)

slash_and_colon :
    (d : ℕ) (h he pb : Bytes)
    → Found b'/' h (some he)
    → Found b':' h (some pb)
    → IsOrigin d h (origin_at d h (some he) (some pb))
slash_and_colon d h he pb (f, e, all, slash) (g, k, free, colon) =
    if_split (IsOrigin d h) (ltb (length pb) (length he)) _ _
      (λ q.
        let (mid, split, back) = overlap g pb f he (sym k ∙ e) (ground arith) in
        without_port d h f he e
          (name_chars f all
            (All-append_left (λ x. x ≢ b':') f mid (subst (All (λ x. x ≢ b':')) split free)))
          slash)
      (λ q.
        let (mid, split, back) = overlap f he g pb (sym e ∙ k) (ground arith) in
        if_split (IsOrigin d h)
          (not (length (strtoul (rest_of pb)).1 == length he)
            || ((strtoul (rest_of pb)).0 == 0 || not (is_valid_port (strtoul (rest_of pb)).0)))
          _ _ (λ r. tt)
          (λ r.
            with_port d h pb g mid he k back
              (name_chars g
                (All-append_left (λ x. x ≢ b'/') g mid (subst (All (λ x. x ≢ b'/')) split all))
                free)
              colon slash (ground arith) (ground arith) (ground arith)))

origin_at-IsOrigin :
    (d : ℕ) (h : Bytes) (he pb : Option Bytes)
    → Found b'/' h he
    → Found b':' h pb
    → IsOrigin d h (origin_at d h he pb)
origin_at-IsOrigin d h none pb p q = tt
origin_at-IsOrigin d h (some he) none (f, e, all, slash) free =
    without_port d h f he e
      (name_chars f all (All-append_left (λ x. x ≢ b':') f he (subst (All (λ x. x ≢ b':')) e free)))
      slash
origin_at-IsOrigin d h (some he) (some pb) p q = slash_and_colon d h he pb p q

-- The protocol that was found in a list.
abbrev pub IsKnown : List AbsUriProtocol → Bytes → Option Origin → Type 0
IsKnown ps uri none = Unit
IsKnown ps uri (some o) =
    (i : ℕ) × (p : AbsUriProtocol) × (get_elem? ps i ≡ some p)
    × (mg_strncasecmp uri p.proto p.proto_len ≡ pos 0)
    × IsOrigin p.default_port (drop p.proto_len uri) (some o)

found_first :
    (p : AbsUriProtocol) (ps : List AbsUriProtocol) (uri : Bytes) (o : Option Origin)
    → is_zero (mg_strncasecmp uri p.proto p.proto_len) ≡ true
    → IsOrigin p.default_port (drop p.proto_len uri) o
    → IsKnown (p ∷ ps) uri o
found_first p ps uri none z h = tt
found_first p ps uri (some o) z h = (0, p, refl, is_zero-pos _ z, h)

found_later :
    (p : AbsUriProtocol) (ps : List AbsUriProtocol) (uri : Bytes) (o : Option Origin)
    → IsKnown ps uri o
    → IsKnown (p ∷ ps) uri o
found_later p ps uri none h = tt
found_later p ps uri (some o) (i, q, known, same, h) = (suc i, q, known, same, h)

pub find_origin-IsKnown :
    (ps : List AbsUriProtocol) (uri : Bytes) → IsKnown ps uri (find_origin ps uri)
unfolding find_origin
find_origin-IsKnown [] uri = tt
find_origin-IsKnown (p ∷ ps) uri =
    let behind = drop p.proto_len uri in
    if_split (IsKnown (p ∷ ps) uri) (is_zero (mg_strncasecmp uri p.proto p.proto_len)) _ _
      (λ e. found_first p ps uri _ e (
        origin_at-IsOrigin p.default_port behind _ _ (strchr-Found behind b'/')
          (strchr-Found behind b':')))
      (λ e. found_later p ps uri _ (find_origin-IsKnown ps uri))

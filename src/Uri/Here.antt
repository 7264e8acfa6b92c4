-- ===== src/Uri/Here.antt =====
-- The answers of get_rel_url_at_current_server in src/civetweb.c.
use civetweb.Base.{==_iff, All, Bool, Bool-cases, Bytes, IsText, IsText-of, List, Option, []}
use civetweb.Base.{and_parts, ap, ap₂, arith, codes, drop, false, get_elem?, get_or, if_split}
use civetweb.Base.{inl, inr, length, length-take, map, none, not, pos, refl, some, subst, suc}
use civetweb.Base.{sym, take, true, zero, ℕ, ◌&&◌, ◌++◌, ◌+◌, ◌-◌, ◌<◌, ◌==◌, ◌∙◌, ◌∷◌, ◌≡◌, ◌≢◌}
use civetweb.Base.{◌≤◌, ◌⊎◌}
use civetweb.Ctype.{tolower, str_eq, str_eq_iff}
use civetweb.Text.{is_zero, mg_strcasecmp, mg_strncasecmp}
use civetweb.Text.Compare.{mg_strncasecmp-prefix, mg_strcasecmp-same}
use civetweb.Uri.{
  AbsUriProtocol, abs_uri_protocols, ServerSite, Origin, is_in_domain, checked_origin,
  get_rel_url_at_current_server,
}
use civetweb.Uri.Server.{IsPlace, IsKnown, find_origin-IsKnown}

-- A name is the domain, or a name in it.
abbrev pub IsInDomain : Bytes → Bytes → Type 0
IsInDomain domain host =
    (host ≡ domain) ⊎ ((sub : Bytes) × (0 < length sub) × (host ≡ sub ++ b'.' ∷ domain))

-- The check of the domain is off unless the option is `yes`, in any case of letters.
abbrev pub IsIn : ServerSite → Bytes → Type 0
IsIn site host =
    (map tolower site.enable_auth_domain_check ≢ codes "yes")
    ⊎ IsInDomain site.authentication_domain host

-- The protocols, with their ports.
abbrev pub IsScheme : Bytes → ℕ → Type 0
IsScheme scheme port =
    ((scheme ≡ codes "http://") × (port ≡ 80))
    ⊎ (((scheme ≡ codes "https://") × (port ≡ 443))
        ⊎ (((scheme ≡ codes "ws://") × (port ≡ 80)) ⊎ ((scheme ≡ codes "wss://") × (port ≡ 443))))

-- What is expected of the answer to a URI.
abbrev pub IsHere : Bytes → ServerSite → Option Bytes → Type 0
IsHere uri site none = Unit
IsHere uri site (some rest) =
    (scheme : Bytes) × (default_port : ℕ) × (host : Bytes) × IsScheme scheme default_port
    × (map tolower (take (length scheme) uri) ≡ scheme)
    × IsPlace default_port site.local_port (drop (length scheme) uri) host rest
    × IsIn site host

-- A row of the table of protocols.
abbrev IsRow : AbsUriProtocol → Type 0
IsRow p =
    (p.proto_len ≡ length p.proto)
    × IsScheme p.proto p.default_port
    × IsText p.proto
    × (map tolower p.proto ≡ p.proto)

rows : All IsRow abs_uri_protocols
unfolding tolower
rows = (
  (refl, inl (refl, refl), IsText-of (codes "http://") refl, refl),
  (
    (refl, inr (inl (refl, refl)), IsText-of (codes "https://") refl, refl),
    (
      (refl, inr (inr (inl (refl, refl))), IsText-of (codes "ws://") refl, refl),
      ((refl, inr (inr (inr (refl, refl))), IsText-of (codes "wss://") refl, refl), tt),
    ),
  ),
)

get_elem-IsRow :
    (ps : List AbsUriProtocol) (i : ℕ) (p : AbsUriProtocol)
    → All IsRow ps
    → get_elem? ps i ≡ some p
    → IsRow p
get_elem-IsRow [] i p h e = cc
get_elem-IsRow (q ∷ ps) zero p h e = let same : q ≡ p = cc in subst IsRow same h.0
get_elem-IsRow (q ∷ ps) (suc i) p h e = get_elem-IsRow ps i p h.1 e

take_front : (h t : Bytes) (n : ℕ) → n ≡ length h → take n (h ++ t) ≡ h
take_front [] t zero e = refl
take_front [] t (suc n) e = absurd (omega arith)
take_front (c ∷ h) t zero e = absurd (omega arith)
take_front (c ∷ h) t (suc n) e = ap (λ r. c ∷ r) (take_front h t n (omega arith))

-- A name whose end is a given one, behind a byte at position `m`.
named_end :
    (m : ℕ) (host tail d : Bytes) (c : ℕ)
    → length host ≡ m + 1 + length d
    → get_or (host ++ tail) m 0 ≡ c
    → take (length d) (drop (suc m) (host ++ tail)) ≡ d
    → host ≡ take m host ++ (c ∷ d)
named_end zero [] tail d c l g e = absurd (omega arith)
named_end (suc m) [] tail d c l g e = absurd (omega arith)
named_end zero (x ∷ host) tail d c l g e =
    ap₂ (λ y r. y ∷ r) g (sym (take_front host tail (length d) (omega arith)) ∙ e)
named_end (suc m) (x ∷ host) tail d c l g e =
    ap (λ r. x ∷ r) (named_end m host tail d c (omega arith) g e)

-- What the tests of the branch for a longer name show.
longer_name :
    (d host hostbegin : Bytes)
    → (length host == length d && str_eq (take (length d) hostbegin) d) ≡ false
    → is_in_domain d (length host) hostbegin ≡ true
    → (length d + 2 ≤ length host)
      × (get_or hostbegin (length host - length d - 1) 0 ≡ b'.')
      × (str_eq (take (length d) (drop (length host - length d) hostbegin)) d ≡ true)
unfolding is_in_domain
longer_name d host hostbegin e h = ground arith

is_in_domain-IsInDomain :
    (d host tail : Bytes) → is_in_domain d (length host) (host ++ tail) ≡ true → IsInDomain d host
is_in_domain-IsInDomain d host tail h =
    elim (Bool-cases (length host == length d && str_eq (take (length d) (host ++ tail)) d)) [
      | inl e ↦
          let (same, text) = and_parts _ _ e in
          inl (
            sym (take_front host tail (length d) (sym ((==_iff _ _).0 same)))
            ∙ (str_eq_iff _ d).0 text)
      | inr e ↦
          let (long, dot, text) = longer_name d host (host ++ tail) e h in
          let m = length host - length d - 1 in
          let behind : length host - length d ≡ suc m = omega arith in
          let end : take (length d) (drop (suc m) (host ++ tail)) ≡ d =
            ap (λ k. take (length d) (drop k (host ++ tail))) (sym behind)
            ∙ (str_eq_iff _ d).0 text in
          inr (
            take m host,
            omega (arith, length-take m host),
            named_end m host tail d b'.' (omega arith) dot end,
          )
    ]

yes_lower : map tolower (codes "yes") ≡ codes "yes"
unfolding tolower
yes_lower = refl

switched_off :
    (option : Bytes)
    → is_zero (mg_strcasecmp option (codes "yes")) ≡ false
    → map tolower option ≢ codes "yes"
switched_off option off q =
    absurd (cc (ap is_zero (mg_strcasecmp-same option (codes "yes") (q ∙ sym yes_lower)), off))

placed_at :
    (site : ServerSite) (n : ℕ) (host tail hostbegin : Bytes)
    → n ≡ length host
    → hostbegin ≡ host ++ tail
    → (is_zero (mg_strcasecmp site.enable_auth_domain_check (codes "yes"))
        && not (is_in_domain site.authentication_domain n hostbegin))
      ≡ false
    → IsIn site host
placed_at site n host tail hostbegin l e h =
    elim (Bool-cases (is_zero (mg_strcasecmp site.enable_auth_domain_check (codes "yes")))) [
      | inr off ↦ inl (switched_off site.enable_auth_domain_check off)
      | inl on ↦ inr (
          is_in_domain-IsInDomain site.authentication_domain host tail (
            ap₂ (λ k s. is_in_domain site.authentication_domain k s) (sym l) (sym e)
            ∙ found _ _ on h))
    ]
  where
    found : (c b : Bool) → c ≡ true → (c && not b) ≡ false → b ≡ true
    found c b p q = ground arith

checked_origin-IsHere :
    (uri : Bytes) (site : ServerSite) (o : Option Origin)
    → IsKnown abs_uri_protocols uri o
    → IsHere uri site (checked_origin site o)
checked_origin-IsHere uri site none h = tt
checked_origin-IsHere uri site (some o) (i, p, known, same, (host, begin, len, place)) =
    let checks = is_zero (mg_strcasecmp site.enable_auth_domain_check (codes "yes")) in
    let (text, split, others, port, slash) = place in
    if_split (IsHere uri site) (not (site.local_port == o.port)) _ _ (λ e. tt)
      (λ e.
        if_split (IsHere uri site)
          (checks && not (is_in_domain site.authentication_domain o.request_domain_len o.hostbegin))
          _ _ (λ f. tt)
          (λ f.
            let (width, scheme, text_p, small) = get_elem-IsRow abs_uri_protocols i p rows known in
            (
              p.proto,
              p.default_port,
              host,
              scheme,
              mg_strncasecmp-prefix uri p.proto text_p
                    (subst (λ n. mg_strncasecmp uri p.proto n ≡ pos 0) width same)
                  ∙ small,
              subst (λ n. IsPlace p.default_port n (drop (length p.proto) uri) host o.hostend)
                  (sym ((==_iff _ _).0 (same_port (site.local_port == o.port) e)))
                  (subst (λ n. IsPlace p.default_port o.port (drop n uri) host o.hostend) width
                    place),
              placed_at site o.request_domain_len host (text ++ o.hostend) o.hostbegin len
                  (begin ∙ split) f,
            )))
  where
    same_port : (b : Bool) → not b ≡ false → b ≡ true
    same_port b h = ground arith

-- When get_rel_url_at_current_server gives a text, it starts with a slash and is the end of the URI
-- behind http://, https://, ws:// or wss:// in any case of letters, the name of a host without slash
-- and colon and its port, which is the port of the server; the port is what strtoul reads behind a
-- colon, between 1 and 65535, or else 80 for http:// and ws:// and 443 for https:// and wss://. The
-- host is the authentication domain or a name that ends with a dot and that domain, unless the check
-- of the domain is off.
pub get_rel_url_at_current_server-IsHere :
    (uri : Bytes) (site : ServerSite) → IsHere uri site (get_rel_url_at_current_server uri site)
unfolding get_rel_url_at_current_server
get_rel_url_at_current_server-IsHere uri site =
    checked_origin-IsHere uri site _ (find_origin-IsKnown abs_uri_protocols uri)

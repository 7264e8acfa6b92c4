-- ===== src/Uri.antt =====
-- URIs in src/civetweb.c: get_uri_type and get_rel_url_at_current_server. A pointer into a string is the rest of the string,
-- so that one of two is behind the other when it is shorter.
pub mod Clean
pub mod Parts
pub mod Server
pub mod Here
use civetweb.Base.{Bool, Bytes, List, Option, [], codes, drop, false, get_or, if◌then◌else◌, leb}
use civetweb.Base.{length, ltb, none, not, peek, rest_of, some, take, true, ℕ, ◌&&◌, ◌+◌, ◌-◌}
use civetweb.Base.{◌==◌, ◌||◌, ◌∷◌}
use civetweb.Ctype.{str_eq, strchr, strtoul}
use civetweb.Text.{is_zero, mg_strcasecmp, mg_strncasecmp}

abbrev pub is_valid_port : ℕ → Bool
is_valid_port port = leb port 0xffff

pub record AbsUriProtocol : Type 0 where
  pub proto : Bytes
  pub proto_len : ℕ
  pub default_port : ℕ

abbrev pub abs_uri_protocols : List AbsUriProtocol
abs_uri_protocols =
    record { proto = codes "http://"; proto_len = 7; default_port = 80 }
    ∷ record { proto = codes "https://"; proto_len = 8; default_port = 443 }
    ∷ record { proto = codes "ws://"; proto_len = 5; default_port = 80 }
    ∷ record { proto = codes "wss://"; proto_len = 6; default_port = 443 }
    ∷ []

-- The tests for %0d and %0a.
unfoldable pub is_newline_code : Bytes → Bool
is_newline_code s =
    let digit = peek (rest_of (rest_of s)) in
    peek s == b'%'
    && (peek (rest_of s) == b'0'
        && (digit == b'd' || (digit == b'D' || (digit == b'a' || digit == b'A'))))

-- The loop over the characters, which ends with 0 where this is false.
unfoldable pub are_allowed : Bytes → Bool
are_allowed [] = true
are_allowed (c ∷ s) =
    let more = are_allowed s in
    if is_newline_code (c ∷ s) then false else if ltb c 33 then false else more

-- The text behind the protocol, from the first / and the first : in it on.
abbrev pub absolute_type : Option Bytes → Option Bytes → ℕ
absolute_type none portbegin = 0
absolute_type (some hostend) none = 3
absolute_type (some hostend) (some portbegin) =
    let (port, portend) = strtoul (rest_of portbegin) in
    if not (length portend == length hostend) || (port == 0 || not (is_valid_port port))
    then 0
    else 4

unfoldable pub protocol_loop : List AbsUriProtocol → Bytes → ℕ
protocol_loop [] uri = 0
protocol_loop (p ∷ ps) uri =
    let more = protocol_loop ps uri in
    let behind = drop p.proto_len uri in
    if is_zero (mg_strncasecmp uri p.proto p.proto_len)
    then absolute_type (strchr behind b'/') (strchr behind b':')
    else more

unfoldable pub get_uri_type : Bytes → ℕ
get_uri_type uri =
    if str_eq uri (codes "*")
    then 1
    else if not (are_allowed uri)
    then 0
    else if peek uri == b'/'
    then 2
    else protocol_loop abs_uri_protocols uri

-- What is read of the connection: two options and the port of its local address.
pub record ServerSite : Type 0 where
  pub enable_auth_domain_check : Bytes
  pub authentication_domain : Bytes
  pub local_port : ℕ

-- The port, the length of the host's name, and `hostbegin` and `hostend`.
pub record Origin : Type 0 where
  pub port : ℕ
  pub request_domain_len : ℕ
  pub hostbegin : Bytes
  pub hostend : Bytes

-- Behind a protocol that was found; `none` is the return of 0.
abbrev pub origin_at : ℕ → Bytes → Option Bytes → Option Bytes → Option Origin
origin_at default_port hostbegin none portbegin = none
origin_at default_port hostbegin (some hostend) none = some (record {
  port = default_port;
  request_domain_len = length hostbegin - length hostend;
  hostbegin = hostbegin;
  hostend = hostend;
})
origin_at default_port hostbegin (some hostend) (some portbegin) =
    let (port, portend) = strtoul (rest_of portbegin) in
    if ltb (length portbegin) (length hostend)
    then some (record {
      port = default_port;
      request_domain_len = length hostbegin - length hostend;
      hostbegin = hostbegin;
      hostend = hostend;
    })
    else if not (length portend == length hostend) || (port == 0 || not (is_valid_port port))
    then none
    else some (record {
      port = port;
      request_domain_len = length hostbegin - length portbegin;
      hostbegin = hostbegin;
      hostend = hostend;
    })

unfoldable pub find_origin : List AbsUriProtocol → Bytes → Option Origin
find_origin [] uri = none
find_origin (p ∷ ps) uri =
    let more = find_origin ps uri in
    let behind = drop p.proto_len uri in
    if is_zero (mg_strncasecmp uri p.proto p.proto_len)
    then origin_at p.default_port behind (strchr behind b'/') (strchr behind b':')
    else more

-- Whether the host's name is the domain, or ends with a dot and the domain.
unfoldable pub is_in_domain : Bytes → ℕ → Bytes → Bool
is_in_domain server_domain request_domain_len hostbegin =
    let n = length server_domain in
    if n == 0
    then false
    else if request_domain_len == n && str_eq (take n hostbegin) server_domain
    then true
    else if ltb request_domain_len (n + 2)
    then false
    else if not (get_or hostbegin (request_domain_len - n - 1) 0 == b'.')
    then false
    else str_eq (take n (drop (request_domain_len - n) hostbegin)) server_domain

abbrev pub checked_origin : ServerSite → Option Origin → Option Bytes
checked_origin site none = none
checked_origin site (some o) =
    let checks = is_zero (mg_strcasecmp site.enable_auth_domain_check (codes "yes")) in
    if not (site.local_port == o.port)
    then none
    else if checks && not (is_in_domain site.authentication_domain o.request_domain_len o.hostbegin)
    then none
    else some o.hostend

-- `none` is NULL.
unfoldable pub get_rel_url_at_current_server : Bytes → ServerSite → Option Bytes
get_rel_url_at_current_server uri site = checked_origin site (find_origin abs_uri_protocols uri)

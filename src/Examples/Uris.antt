-- ===== src/Examples/Uris.antt =====
-- The theorems on URIs, cookies and the matches of patterns at inputs.
use civetweb.Base.{All, Bytes, [], arith, codes, false, refl, some, true, ◌≡◌}
use civetweb.Ctype.{strchr, strtoul, skip_spaces_in, read_digits, str_eq, isdigit, isspace, tolower}
use civetweb.Text.{mg_strncasecmp, mg_strcasecmp}
use civetweb.Match.{MatchContext, mg_match_alternatives}
use civetweb.Match.Joined.{mg_match}
use civetweb.Match.Joined.Order.{Joins, mg_match-Joins}
use civetweb.Url.{mg_url_decode}
use civetweb.Url.Decode.{written}
use civetweb.Uri.{
  are_allowed, is_newline_code, protocol_loop, find_origin, is_in_domain, ServerSite, get_uri_type,
  get_rel_url_at_current_server,
}
use civetweb.Uri.Clean.{IsNoNewline, get_uri_type-IsNoNewline}
use civetweb.Uri.Here.{IsHere, get_rel_url_at_current_server-IsHere}

abbrev no_matches : MatchContext
no_matches = record { case_sensitive = true; matches = [] }

abbrev stars : Bytes
stars = codes "/?*/**.cgi"

abbrev nested : Bytes
nested = codes "/ab/c/d.cgi"

mg_match-Joins_example :
    Joins
      (mg_match_alternatives stars nested (some no_matches))
      (mg_match stars nested (some no_matches))
mg_match-Joins_example = mg_match-Joins stars nested (some no_matches)

abbrev target_ : Bytes
target_ = codes "/a%20b%0cc"

target_-type : get_uri_type target_ ≡ 2
unfolding get_uri_type str_eq are_allowed is_newline_code
target_-type = refl

get_uri_type-IsNoNewline_example : All IsNoNewline (written (mg_url_decode target_ 100 false))
get_uri_type-IsNoNewline_example =
    get_uri_type-IsNoNewline target_ 100 false (λ e. absurd (omega (arith, target_-type, e)))

-- A colon in the path makes an absolute URI without a port invalid.
colon_in_path : get_uri_type (codes "http://site.org/a:b") ≡ 0
unfolding get_uri_type str_eq are_allowed is_newline_code protocol_loop mg_strncasecmp tolower
    strchr strtoul skip_spaces_in isspace isdigit
colon_in_path = refl

no_colon_in_path : get_uri_type (codes "http://site.org/a-b") ≡ 3
unfolding get_uri_type str_eq are_allowed is_newline_code protocol_loop mg_strncasecmp tolower
    strchr
no_colon_in_path = refl

abbrev our_site : ServerSite
our_site = record {
  enable_auth_domain_check = codes "yes";
  authentication_domain = codes "site.org";
  local_port = 8080;
}

abbrev absolute : Bytes
absolute = codes "HTTP://www.site.org:8080/a:b"

its_path : get_rel_url_at_current_server absolute our_site ≡ some (codes "/a:b")
unfolding get_rel_url_at_current_server find_origin is_in_domain str_eq mg_strcasecmp mg_strncasecmp
    tolower strchr strtoul skip_spaces_in read_digits isspace isdigit
its_path = refl

get_rel_url_at_current_server-IsHere_example :
    IsHere absolute our_site (get_rel_url_at_current_server absolute our_site)
get_rel_url_at_current_server-IsHere_example =
    get_rel_url_at_current_server-IsHere absolute our_site

abbrev cookie_header : Bytes
cookie_header = codes "sid=x1; user=\"Al\"; id=7"

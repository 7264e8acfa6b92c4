-- ===== src/Examples/Texts.antt =====
-- The theorems on texts, paths, patterns and encodings at inputs.
use civetweb.Base.{All-of, Bytes, IsText-of, [], arith, codes, false, length, ltb, ltb→lt, map}
use civetweb.Base.{negsuc, none, pos, refl, some, true, ◌+◌, ◌-◌, ◌<◌, ◌↔◌, ◌≡◌, ◌≤◌}
use civetweb.Ctype.{tolower}
use civetweb.Path.{remove_dot_segments}
use civetweb.Path.Safe.{IsSafe, remove_dot_segments-IsSafe}
use civetweb.Match.{mg_match_impl, mg_match_alternatives}
use civetweb.Match.Relation.{Matches}
use civetweb.Match.Longest.{Answers}
use civetweb.Match.Decides.{mg_match_impl_correct}
use civetweb.Match.Prefix.{split_at_bar, AnswersFirst, mg_match_alternatives-AnswersFirst}
use civetweb.Url.{mg_url_decode, mg_url_encode, complete}
use civetweb.Url.Decode.{written, mg_url_decode_bounds}
use civetweb.Url.RoundTrip.{mg_url_decode-mg_url_encode}
use civetweb.Base64.{mg_base64_decode, mg_base64_encode}
use civetweb.Base64.RoundTrip.{mg_base64_decode-mg_base64_encode}
use civetweb.Text.{mg_strcasestr, mg_strcasecmp}
use civetweb.Text.Search.{IsFirst, mg_strcasestr-IsFirst}
use civetweb.Text.Compare.{mg_strcasecmp-eq-zero_iff}

abbrev climbing : Bytes
climbing = codes "/a/./b/../../c\\d..x"

abbrev SafePath : Bytes → Type 0
SafePath p = (r : Bytes) × (remove_dot_segments p ≡ some r) × IsSafe p r

remove_dot_segments-IsSafe_example : SafePath climbing
remove_dot_segments-IsSafe_example = remove_dot_segments-IsSafe climbing (IsText-of climbing refl)

climbing_removed : remove_dot_segments climbing ≡ some (codes "/c/d..x")
unfolding remove_dot_segments
climbing_removed = refl

abbrev pattern_ : Bytes
pattern_ = codes "/**/*.cgi$|/x"

abbrev script : Bytes
script = codes "/bin/a/run.cgi"

mg_match_impl_correct_example :
    Answers
      (Matches false (codes "/**/*.cgi$") script)
      (mg_match_impl (codes "/**/*.cgi$") 0 script none).0
mg_match_impl_correct_example =
    mg_match_impl_correct (codes "/**/*.cgi$") 0 script none (IsText-of (codes "/**/*.cgi$") refl)
      (IsText-of script refl)

mg_match_alternatives-AnswersFirst_example :
    AnswersFirst false script
      (split_at_bar [] pattern_)
      (mg_match_alternatives pattern_ script none).0
mg_match_alternatives-AnswersFirst_example =
    mg_match_alternatives-AnswersFirst pattern_ script none (IsText-of pattern_ refl)
      (IsText-of script refl)

abbrev name_ : Bytes
name_ = codes "a b&c=%"

name-whole : (mg_url_encode name_ 40).whole ≡ true
unfolding mg_url_encode
name-whole = refl

mg_url_decode-mg_url_encode_example :
    mg_url_decode (mg_url_encode name_ 40).out 8 true ≡ complete name_
mg_url_decode-mg_url_encode_example =
    mg_url_decode-mg_url_encode true name_ 40 8 (IsText-of name_ refl) (omega arith) name-whole

mg_url_decode_bounds_example :
    (length (written (mg_url_decode (codes "a%20b") 3 false)) ≤ 5)
    × (length (written (mg_url_decode (codes "a%20b") 3 false)) < 3)
mg_url_decode_bounds_example = mg_url_decode_bounds false (codes "a%20b") 3 (omega arith)

abbrev password : Bytes
password = codes "user:pass"

mg_base64_decode-mg_base64_encode_example :
    mg_base64_decode (mg_base64_encode password none).dst none
    ≡ record { ret = negsuc 0; dst = password; dst_len = none }
mg_base64_decode-mg_base64_encode_example =
    mg_base64_decode-mg_base64_encode password
      (All-of (λ c. c < 256) (λ c. ltb c 256) (λ c h. ltb→lt c 256 h) password refl)

abbrev cookies : Bytes
cookies = codes "a=1; SID=2; sid=3"

mg_strcasestr-IsFirst_example :
    IsFirst cookies (codes "sid") 0 (length cookies + 1 - 3) (mg_strcasestr cookies (codes "sid"))
mg_strcasestr-IsFirst_example =
    mg_strcasestr-IsFirst cookies (codes "sid") (IsText-of cookies refl)
      (IsText-of (codes "sid") refl)

mg_strcasecmp-eq-zero_iff_example :
    (mg_strcasecmp (codes "Host") (codes "hOST") ≡ pos 0)
    ↔ (map tolower (codes "Host") ≡ map tolower (codes "hOST"))
mg_strcasecmp-eq-zero_iff_example =
    mg_strcasecmp-eq-zero_iff (codes "Host") (codes "hOST") (IsText-of (codes "Host") refl)
      (IsText-of (codes "hOST") refl)

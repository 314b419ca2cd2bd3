-- ===== src/Tests/Runs.antt =====
-- Runs of the parsers that can be compared with the source.
use expire_share_api.Prelude.{◌≡◌, refl, arith, [], ◌∷◌, none, some, pos, negsuc}
use expire_share_api.Http.Text.{
  extract_bearer_token, extract_ip, time_string, scan_pagination_args, parse_int, trim_space,
}
use expire_share_api.Config.{to_bytes}
use expire_share_api.Config.Sizes.{to_bytes_exact, megabytes}
use expire_share_api.Http.Text.Numerals.{d0, d5}

bearer : extract_bearer_token "BeArer  abc " ≡ "abc"
unfolding extract_bearer_token
bearer = refl

no_bearer : extract_bearer_token "Basic abc" ≡ ""
unfolding extract_bearer_token
no_bearer = refl

ipv4 : extract_ip "10.0.0.7:80" ≡ "10.0.0.7"
unfolding extract_ip
ipv4 = refl

ipv6 : extract_ip "[::1]:80" ≡ "::1"
unfolding extract_ip
ipv6 = refl

bare : extract_ip "::1" ≡ "::1"
unfolding extract_ip
bare = refl

over : parse_int 16 "32768" ≡ none
unfolding parse_int
over = refl

under : parse_int 16 "-32768" ≡ some (negsuc 32767)
unfolding parse_int
under = refl

pages : scan_pagination_args "0" "1000" ≡ (1, 100)
unfolding scan_pagination_args
pages = refl

time : time_string (pos 3725000000000) ≡ record { hours = pos 1; minutes = pos 2; seconds = pos 5 }
unfolding time_string
time = refl

size : to_bytes " 500MB " ≡ some (pos 524288000)
unfolding to_bytes trim_space
size = refl

no_unit : to_bytes "500" ≡ none
unfolding to_bytes trim_space
no_unit = refl

to_bytes_exact_example : to_bytes "500mb" ≡ some (pos 524288000)
to_bytes_exact_example = to_bytes_exact d5 (d0 ∷ d0 ∷ []) megabytes (omega arith)

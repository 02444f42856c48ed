-- ===== src/Auth/Bearer.antt =====
-- internal/auth/authenticator.go: BearerToken.
use go_api_scaffolding.Common.{
  Bytes, codes, same, to_lower, trim_space, [], length, take, drop, ltb, ◌&&◌, if◌then◌else◌,
}

abbrev pub prefix : Bytes
prefix = codes "Bearer "

-- strings.EqualFold is on a prefix of ASCII letters here.
unfoldable pub bearer_token : Bytes → Bytes
bearer_token header =
    if ltb 7 (length header) && same (to_lower (take 7 header)) (to_lower prefix)
    then trim_space (drop 7 header)
    else []

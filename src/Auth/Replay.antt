-- ===== src/Auth/Replay.antt =====
-- internal/auth/replay.go: the schemes of the address of the brain, and nonces.
use muthur_collector.Prelude.Hex.{hex}
use muthur_collector.Prelude.{
  Option, none, some, ◌&&◌, List, [], ◌∷◌, Text, text, ◌==◌, bytes_eq, ltb, length, take, drop,
  if◌then◌else◌,
}

abbrev pub schemes : List Text
schemes = text "https://" ∷ text "http://" ∷ text "grpcs://" ∷ text "grpc://" ∷ []

unfoldable pub strip_first : List Text → Text → Text
strip_first [] s = s
strip_first (prefix ∷ prefixes) s =
    let rest = strip_first prefixes s in
    if ltb (length prefix) (length s) && take (length prefix) s == prefix
    then drop (length prefix) s
    else rest

unfoldable pub strip_scheme : Text → Text
unfolding strip_first
strip_scheme s = strip_first schemes s

-- FreshNonce, of the 16 bytes that rand.Read gave; `none` is its panic.
unfoldable pub fresh_nonce : Option Text → Option Text
unfolding hex
fresh_nonce none = none
fresh_nonce (some random) = some (hex random)

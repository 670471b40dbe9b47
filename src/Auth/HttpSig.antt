-- ===== src/Auth/HttpSig.antt =====
-- internal/auth/httpsig.go: the signature of a request over its headers. SHA-256, base64, ECDSA and
-- strconv.Unquote are the record `Primitives`.
pub mod Base
pub mod Params
pub mod RoundTrip
use muthur_collector.Prelude.{
  ℕ, zero, suc, Bool, ◌||◌, ◌&&◌, not, Option, none, some, List, [], ◌∷◌, ◌++◌, Text, text, ◌==◌,
  nat_eq, bytes_eq, length, take, drop, if◌then◌else◌, true, false,
}
use muthur_collector.Prelude.Assoc.{get}
use muthur_collector.Prelude.Hex.{hex}
use muthur_collector.Prelude.Int.{ℤ, pos}
use muthur_collector.Prelude.Numbers.{format_int, parse_int, fill_bytes, set_bytes}
use muthur_collector.Prelude.Quote.{quote}
use muthur_collector.Prelude.Result.{Result, ok, err, ◌>>=◌}
use muthur_collector.Prelude.Strings.{
  trim_space, split, cut, cut_prefix, cut_last, to_upper, to_lower,
}
use muthur_collector.Auth.SignatureBase.{
  Header, header_get, header_set, header_content_digest, header_signature_input, header_signature,
  signature_label, signature_alg, SignatureError, signature_params, signature_base, missing,
  invalid, key_type, digest_mismatch, malformed, not_signed,
}

pub record Primitives (Key Pub : Type 0) : Type 0 where
  pub sha256 : Text → Text
  pub b64_encode : Text → Text
  pub b64_decode : Text → Option Text
  -- strconv.Unquote
  pub unquote : Text → Option Text
  -- Curve == elliptic.P256()
  pub key_is_p256 : Key → Bool
  pub pub_is_p256 : Pub → Bool
  -- ecdsa.Sign, from random bytes, and ecdsa.Verify, on a digest
  pub sign : Text → Key → Text → Result Text (ℕ × ℕ)
  pub verify : Pub → Text → ℕ → ℕ → Bool

pub record SignatureInfo : Type 0 where
  pub created : ℤ
  pub key_id : Text

-- The state of the loop over the parameters: what was read, and the names seen.
pub record Reading : Type 0 where
  pub info : SignatureInfo
  pub seen : List Text

unfoldable pub member : Text → List Text → Bool
member k [] = false
member k (j ∷ seen) = k == j || member k seen

module _ {Key Pub : Type 0} (p : Primitives Key Pub) where
  unfoldable pub content_digest : Text → Text
  content_digest body = text "sha-256=:" ++ (p.b64_encode (p.sha256 body) ++ b':' ∷ [])

  -- VerifyContentDigest; `none` is success.
  unfoldable pub verify_content_digest : Header → Text → Option SignatureError
  unfolding content_digest header_get trim_space
  verify_content_digest h body =
      let got = trim_space (header_get h header_content_digest) in
      if got == [] || not (got == content_digest body) then some digest_mismatch else none

  unfoldable pub cert_key_id : Text → Text
  cert_key_id leaf_der = hex (p.sha256 leaf_der)

  abbrev read_created : SignatureInfo → Option ℤ → Result SignatureError SignatureInfo
  read_created info none = err (malformed [])
  read_created info (some n) = ok (record info { created = n })

  abbrev read_key_id : SignatureInfo → Option Text → Result SignatureError SignatureInfo
  read_key_id info none = err (malformed [])
  read_key_id info (some id) = ok (record info { key_id = id })

  -- The switch on the name of a parameter.
  unfoldable pub read_param : Text → Text → SignatureInfo → Result SignatureError SignatureInfo
  unfolding parse_int
  read_param k v info =
      if k == text "created"
      then read_created info (parse_int v)
      else if k == text "alg"
      then if v == quote signature_alg then ok info else err (malformed (text "alg " ++ v))
      else if k == text "keyid"
      then read_key_id info (p.unquote v)
      else err (malformed (text "unknown parameter " ++ quote k))

  abbrev read_pair : Option (Text × Text) → Reading → Result SignatureError Reading
  read_pair none st = err (malformed [])
  read_pair (some (k, v)) st =
      if member k st.seen
      then err (malformed [])
      else (do info ← read_param k v st.info; ok (record { info = info; seen = k ∷ st.seen }))

  unfoldable pub read_pairs : List Text → Reading → Result SignatureError Reading
  unfolding cut member read_param
  read_pairs [] st = ok st
  read_pairs ([] ∷ pairs) st = read_pairs pairs st
  read_pairs ((c ∷ kv) ∷ pairs) st = do st' ← read_pair (cut b'=' (c ∷ kv)) st; read_pairs pairs st'

  abbrev check_seen : Reading → Result SignatureError SignatureInfo
  check_seen st =
      if not (member (text "created") st.seen)
        || not (member (text "alg") st.seen)
        || not (member (text "keyid") st.seen)
      then err (malformed [])
      else ok st.info

  -- The parameters up to the closing parenthesis, and those after it.
  abbrev up_to_closing : Option (Text × Text) → Text
  up_to_closing none = []
  up_to_closing (some (before, after)) = before ++ b')' ∷ []

  abbrev parse_cut : Option (Text × Text) → Text → Result SignatureError SignatureInfo
  parse_cut none want = err (malformed [])
  parse_cut (some (before, after)) want =
      if not (before ++ b')' ∷ [] == want)
      then err (malformed (text "unexpected covered components"))
      else (do
        st ←
            read_pairs (split b';' after)
              (record { info = record { created = pos 0; key_id = [] }; seen = [] })
        check_seen st)

  abbrev starts_open : Text → Bool
  starts_open [] = false
  starts_open (c ∷ s) = c == b'('

  unfoldable pub parse_signature_params : Text → Result SignatureError SignatureInfo
  unfolding cut split read_pairs signature_params
  parse_signature_params params =
      if not (starts_open params)
      then err (malformed [])
      else parse_cut (cut b')' params) (up_to_closing (cut b')' (signature_params (pos 0) [])))

  -- The two headers that a signature adds.
  abbrev with_signature : Header → Text → Result Text (ℕ × ℕ) → Result SignatureError Header
  with_signature h params (err e) = err (not_signed e)
  with_signature h params (ok (r, s)) = ok (
      header_set header_signature
        (signature_label
          ++ (text "=:" ++ (p.b64_encode (fill_bytes 32 r ++ fill_bytes 32 s) ++ b':' ∷ [])))
        (header_set header_signature_input (signature_label ++ (text "=" ++ params)) h))

  unfoldable pub sign_request :
      Text → Header → Text → Text → Option Key → Text → ℤ → Result SignatureError Header
  unfolding signature_params signature_base cert_key_id header_set
  sign_request random h method path none leaf_der created = err key_type
  sign_request random h method path (some key) leaf_der created =
      if not (p.key_is_p256 key)
      then err key_type
      else with_signature h (signature_params created (cert_key_id leaf_der)) (
          p.sign random key (
            p.sha256
              (signature_base method path h (signature_params created (cert_key_id leaf_der)))))

  abbrev from_option : {A : Type 0} → Option A → Result SignatureError A
  from_option none = err (malformed [])
  from_option (some a) = ok a

  abbrev of_64_bytes : Text → Result SignatureError Text
  of_64_bytes sig = if length sig == 64 then ok sig else err (malformed [])

  abbrev check_verified : SignatureInfo → Bool → Result SignatureError SignatureInfo
  check_verified info verified = if verified then ok info else err invalid

  -- VerifyRequest once the headers are there, trimmed.
  abbrev verify_headers :
      Text → Text → Header → Pub → Text → Text → Result SignatureError SignatureInfo
  verify_headers method path h pub_key input sig_text = do
    params ← from_option (cut_prefix (signature_label ++ text "=") input)
    info ← parse_signature_params params
    quoted ← from_option (cut_prefix (signature_label ++ text "=:") sig_text)
    encoded ← from_option (cut_last b':' quoted)
    decoded ← from_option (p.b64_decode encoded)
    sig ← of_64_bytes decoded
    check_verified info (
        p.verify pub_key (p.sha256 (signature_base method path h params)) (set_bytes (take 32 sig))
          (set_bytes (drop 32 sig)))

  unfoldable pub verify_request :
      Text → Text → Header → Option Pub → Result SignatureError SignatureInfo
  unfolding parse_signature_params signature_base header_get trim_space
  verify_request method path h none = err key_type
  verify_request method path h (some pub_key) =
      if not (p.pub_is_p256 pub_key)
      then err key_type
      else if trim_space (header_get h header_signature_input) == []
          || trim_space (header_get h header_signature) == []
      then err missing
      else verify_headers method path h pub_key (trim_space (header_get h header_signature_input))
          (trim_space (header_get h header_signature))

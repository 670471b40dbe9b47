-- ===== src/Auth/SignatureBase.antt =====
-- internal/auth/httpsig.go: headers, the parameters of a signature and the text that is signed.
use muthur_collector.Prelude.{
  List, [], ◌∷◌, ◌++◌, Text, text, ◌==◌, nat_eq, bytes_eq, if◌then◌else◌,
}
use muthur_collector.Prelude.Assoc.{get}
use muthur_collector.Prelude.Int.{ℤ}
use muthur_collector.Prelude.Numbers.{format_int}
use muthur_collector.Prelude.Quote.{quote}
use muthur_collector.Prelude.Strings.{trim_space, to_upper, to_lower}

-- http.Header: names are compared without regard to case, and the last Set of a name counts.
abbrev pub Header : Type 0
Header = List (Text × Text)

unfoldable pub header_get : Header → Text → Text
unfolding get to_lower
header_get h name = get h (to_lower name)

unfoldable pub header_set : Text → Text → Header → Header
unfolding to_lower
header_set name value h = (to_lower name, value) ∷ h

abbrev pub header_timestamp : Text
header_timestamp = text "X-Muthur-Timestamp"

abbrev pub header_nonce : Text
header_nonce = text "X-Muthur-Nonce"

abbrev pub header_cert : Text
header_cert = text "X-Muthur-Cert"

abbrev pub header_hpke_kid : Text
header_hpke_kid = text "X-Muthur-Hpke-Kid"

abbrev pub header_content_digest : Text
header_content_digest = text "Content-Digest"

abbrev pub header_signature_input : Text
header_signature_input = text "Signature-Input"

abbrev pub header_signature : Text
header_signature = text "Signature"

abbrev pub signature_label : Text
signature_label = text "sig1"

abbrev pub signature_alg : Text
signature_alg = text "ecdsa-p256-sha256"

abbrev pub signed_components : List Text
signed_components =
    text "@method"
    ∷ text "@path"
    ∷ text "content-digest"
    ∷ text "x-muthur-timestamp"
    ∷ text "x-muthur-nonce"
    ∷ text "x-muthur-cert"
    ∷ text "x-muthur-hpke-kid"
    ∷ []

-- ErrSignatureMissing and the others; a malformed one may say why.
pub data SignatureError : Type 0 where
  missing invalid key_type digest_mismatch : SignatureError
  malformed : Text → SignatureError
  not_signed : Text → SignatureError

-- The quoted components, a space between them.
unfoldable pub component_list : List Text → Text
unfolding quote
component_list [] = []
component_list (c ∷ []) = quote c
component_list (c ∷ d ∷ components) = quote c ++ (b' ' ∷ component_list (d ∷ components))

unfoldable pub signature_params : ℤ → Text → Text
unfolding component_list format_int quote
signature_params created key_id =
    b'('
    ∷ (component_list signed_components
        ++ (text ");created="
            ++ (format_int created
                ++ (text ";alg=" ++ (quote signature_alg ++ (text ";keyid=" ++ quote key_id))))))

-- The value of a component.
unfoldable pub component_value : Text → Text → Header → Text → Text
unfolding to_upper header_get trim_space
component_value method path h c =
    if c == text "@method"
    then to_upper method
    else if c == text "@path"
    then path
    else trim_space (header_get h c)

-- A line for each component, in front of `rest`.
unfoldable pub base_lines : List Text → (Text → Text) → Text → Text
unfolding quote
base_lines [] value rest = rest
base_lines (c ∷ components) value rest =
    quote c ++ (text ": " ++ (value c ++ b'\n' ∷ base_lines components value rest))

unfoldable pub signature_base : Text → Text → Header → Text → Text
unfolding base_lines component_value
signature_base method path h params =
    base_lines signed_components (component_value method path h)
      (quote (text "@signature-params") ++ (text ": " ++ params))

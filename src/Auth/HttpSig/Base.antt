-- ===== src/Auth/HttpSig/Base.antt =====
-- What a signature covers.
use muthur_collector.Prelude.{◌≡◌, List, [], ◌∷◌, ◌++◌, Text, text, text_eq}
use muthur_collector.Prelude.All.{All}
use muthur_collector.Prelude.Quote.{quote}
use muthur_collector.Prelude.Separators.{IsFree, split_first, append_cancel}
use muthur_collector.Prelude.Strings.{trim_space, to_upper}
use muthur_collector.Auth.SignatureBase.{
  Header, header_get, signed_components, component_value, base_lines, signature_base,
  header_timestamp, header_nonce, header_cert, header_hpke_kid, header_content_digest,
}

base_lines-injective :
    (components : List Text) (f g : Text → Text) (a b : Text)
    → All (λ c. IsFree b'\n' (f c) × IsFree b'\n' (g c)) components
    → base_lines components f a ≡ base_lines components g b
    → All (λ c. f c ≡ g c) components × (a ≡ b)
unfolding base_lines
base_lines-injective [] f g a b free e = (tt, e)
base_lines-injective (c ∷ components) f g a b free e =
    let values =
      append_cancel (text ": ") (f c ++ b'\n' ∷ base_lines components f a)
        (g c ++ b'\n' ∷ base_lines components g b)
        (append_cancel (quote c) (text ": " ++ (f c ++ b'\n' ∷ base_lines components f a))
          (text ": " ++ (g c ++ b'\n' ∷ base_lines components g b)) e) in
    let (same, rests) =
      split_first b'\n' (f c) (g c) (base_lines components f a) (base_lines components g b) free.0.0
        free.0.1 values in
    let (others, ends) = base_lines-injective components f g a b free.1 rests in
    ((same, others), ends)

-- No line of the base can be broken by the values of a request.
abbrev pub HasNoBreak : Text → Text → Header → Type 0
HasNoBreak method path h =
    All (λ c. IsFree b'\n' (component_value method path h c)) signed_components

-- What the signature of a request covers.
pub record CoversSame (method method' path path' : Text) (h h' : Header) (params params' : Text)
    : Type 0 where
  pub method_eq : to_upper method ≡ to_upper method'
  pub path_eq : path ≡ path'
  pub digest_eq :
      trim_space (header_get h header_content_digest)
      ≡ trim_space (header_get h' header_content_digest)
  pub timestamp_eq :
      trim_space (header_get h header_timestamp) ≡ trim_space (header_get h' header_timestamp)
  pub nonce_eq : trim_space (header_get h header_nonce) ≡ trim_space (header_get h' header_nonce)
  pub cert_eq : trim_space (header_get h header_cert) ≡ trim_space (header_get h' header_cert)
  pub kid_eq :
      trim_space (header_get h header_hpke_kid) ≡ trim_space (header_get h' header_hpke_kid)
  pub params_eq : params ≡ params'

both : (P Q : Text → Type 0) (cs : List Text) → All P cs → All Q cs → All (λ c. P c × Q c) cs
both P Q [] h k = tt
both P Q (c ∷ cs) h k = ((h.0, k.0), both P Q cs h.1 k.1)

-- Two requests with the same signature base agree in all that it covers: the method, the path, the
-- five headers and the parameters, provided that no value holds a newline.
pub signature_base-CoversSame :
    (method method' path path' : Text) (h h' : Header) (params params' : Text)
    → HasNoBreak method path h
    → HasNoBreak method' path' h'
    → signature_base method path h params ≡ signature_base method' path' h' params'
    → CoversSame method method' path path' h h' params params'
unfolding signature_base component_value header_get text_eq
signature_base-CoversSame method method' path path' h h' params params' free free' e =
    let ((m, (p, (d, (t, (n, (c, (k, _))))))), ends) =
      base_lines-injective signed_components (component_value method path h)
        (component_value method' path' h')
        (quote (text "@signature-params") ++ (text ": " ++ params))
        (quote (text "@signature-params") ++ (text ": " ++ params'))
        (both (λ c. IsFree b'\n' (component_value method path h c))
          (λ c. IsFree b'\n' (component_value method' path' h' c)) signed_components free free')
        e in
    record {
      method_eq = m;
      path_eq = p;
      digest_eq = d;
      timestamp_eq = t;
      nonce_eq = n;
      cert_eq = c;
      kid_eq = k;
      params_eq = append_cancel (text ": ") params params' (
          append_cancel (quote (text "@signature-params")) (text ": " ++ params)
            (text ": " ++ params') ends);
    }

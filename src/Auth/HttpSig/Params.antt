-- ===== src/Auth/HttpSig/Params.antt =====
-- The parameters of a signature: what signatureParams writes, parseSignatureParams reads.
use muthur_collector.Prelude.Strings.Laws.{split-append, split-free}
use muthur_collector.Prelude.All.{All}
use muthur_collector.Prelude.{
  ℕ, ◌<◌, ◌≡◌, refl, [], ◌∷◌, ◌++◌, Text, text, text_eq, bytes_eq, arith, ◌/◌, ◌%◌, ◌≢◌, inr, List,
  ap, ◌∙◌, ◌≤◌, ◌+◌, some, text_eq_refl,
}
use muthur_collector.Prelude.Hex.{hex, hex_digit}
use muthur_collector.Prelude.Int.{ℤ, pos, pos_part, neg_part}
use muthur_collector.Prelude.Numbers.{
  format_int, parse_int, max_int64, parse_int-format_int, IsFree-format_int,
}
use muthur_collector.Prelude.Quote.{quote, escape_all, escape}
use muthur_collector.Prelude.Result.{◌>>=◌, ok}
use muthur_collector.Prelude.Separators.{IsFree, IsFree-append}
use muthur_collector.Prelude.Strings.{split, cut}
use muthur_collector.Auth.HttpSig.{
  Primitives, read_pairs, parse_signature_params, Reading, check_seen, read_param, member,
}
use muthur_collector.Auth.SignatureBase.{signature_alg, signature_params}

abbrev pub IsBytes : Text → Type 0
IsBytes s = All (λ c. c < 256) s

escape-hex_digit : (n : ℕ) → n < 16 → escape (hex_digit n) ≡ hex_digit n ∷ []
unfolding escape hex_digit
escape-hex_digit n h = ground arith

pub escape_all-hex : (s : Text) → IsBytes s → escape_all (hex s) ≡ hex s
unfolding escape_all hex
escape_all-hex [] h = refl
escape_all-hex (c ∷ s) (h, hs) =
    rw
      (
        escape-hex_digit (c / 16) (omega arith),
        escape-hex_digit (c % 16) (omega arith),
        escape_all-hex s hs,
      )
      refl

hex_digit-ne : (n : ℕ) → n < 16 → hex_digit n ≢ b';'
unfolding hex_digit
hex_digit-ne n h e = ground arith

IsFree-hex : (s : Text) → IsBytes s → IsFree b';' (hex s)
unfolding hex
IsFree-hex [] h = tt
IsFree-hex (c ∷ s) (h, hs) =
    (hex_digit-ne (c / 16) (omega arith), (hex_digit-ne (c % 16) (omega arith), IsFree-hex s hs))

IsFree-quote-hex : (s : Text) → IsBytes s → IsFree b';' (quote (hex s))
unfolding quote
IsFree-quote-hex s h = rw (escape_all-hex s h) (
    (
      λ e. omega arith,
      IsFree-append b';' (hex s) (b'"' ∷ []) (IsFree-hex s h) (λ e. omega arith, tt),
    ))

-- What stands after the list of components.
abbrev pairs_text : ℤ → Text → Text
pairs_text created key_id =
    text ";created="
    ++ (format_int created
        ++ (text ";alg=" ++ (quote signature_alg ++ (text ";keyid=" ++ quote key_id))))

abbrev no_reading : Reading
no_reading = record { info = record { created = pos 0; key_id = [] }; seen = [] }

module _ {Key Pub : Type 0} (p : Primitives Key Pub) where
  parse_signature_params-pairs :
      (created : ℤ) (key_id : Text)
      → parse_signature_params p (signature_params created key_id)
        ≡ (read_pairs p (split b';' (pairs_text created key_id)) no_reading >>= check_seen p)
  unfolding parse_signature_params text_eq
  parse_signature_params-pairs created key_id = refl

  abbrev pieces : ℤ → Text → List Text
  pieces created key_id =
      []
      ∷ (text "created=" ++ format_int created)
      ∷ (text "alg=" ++ quote signature_alg)
      ∷ (text "keyid=" ++ quote key_id)
      ∷ []

  split-pairs_text :
      (created : ℤ) (key_id : Text)
      → IsFree b';' (quote key_id)
      → split b';' (pairs_text created key_id) ≡ pieces created key_id
  unfolding quote
  split-pairs_text created key_id free =
      let after_alg = text "keyid=" ++ quote key_id in
      let after_created = text "alg=" ++ (quote signature_alg ++ b';' ∷ after_alg) in
      let after_start = text "created=" ++ (format_int created ++ b';' ∷ after_created) in
      split-append b';' [] after_start tt
      ∙ ap (λ (l : List Text). [] ∷ l)
          (split-append b';' (text "created=" ++ format_int created) after_created (
              IsFree-append b';' (text "created=") (format_int created) (omega arith)
                (IsFree-format_int b';' created (inr (omega arith))))
            ∙ ap (λ (l : List Text). (text "created=" ++ format_int created) ∷ l)
                (split-append b';' (text "alg=" ++ quote signature_alg) after_alg (omega arith)
                  ∙ ap (λ (l : List Text). (text "alg=" ++ quote signature_alg) ∷ l)
                      (split-free b';' (text "keyid=" ++ quote key_id)
                        (IsFree-append b';' (text "keyid=") (quote key_id) (omega arith) free))))

  read_pairs-pieces :
      (created : ℤ) (key_id : Text)
      → parse_int (format_int created) ≡ some created
      → p.unquote (quote key_id) ≡ some key_id
      → (read_pairs p (pieces created key_id) no_reading >>= check_seen p)
        ≡ ok (record { created = created; key_id = key_id })
  unfolding read_pairs text_eq cut member read_param
  read_pairs-pieces created key_id number unquoted =
      rw (number, unquoted, text_eq_refl (quote signature_alg)) refl

  -- parseSignatureParams reads back what signatureParams wrote for a time of 64 bits and the key id of a
  -- certificate, given that Unquote undoes Quote on that id.
  pub parse_signature_params-signature_params :
      (created : ℤ) (s : Text)
      → pos_part created ≤ max_int64
      → neg_part created ≤ max_int64 + 1
      → IsBytes s
      → p.unquote (quote (hex s)) ≡ some (hex s)
      → parse_signature_params p (signature_params created (hex s))
        ≡ ok (record { created = created; key_id = hex s })
  parse_signature_params-signature_params created s above below bytes unquoted =
      parse_signature_params-pairs created (hex s)
      ∙ ap (λ (l : List Text). read_pairs p l no_reading >>= check_seen p)
          (split-pairs_text created (hex s) (IsFree-quote-hex s bytes))
      ∙ read_pairs-pieces created (hex s) (parse_int-format_int created above below) unquoted

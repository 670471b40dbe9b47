-- ===== src/Examples/Suite.antt =====
-- A cryptography that can be computed, for the runs of the signed transport: keys are texts, a sealed text
-- is the text after its additional data, and a digest is the length of what it is of.
use muthur_collector.Prelude.{
  ℕ, ◌%◌, ◌≡◌, refl, ap, sym, true, Option, none, some, [], ◌∷◌, ◌++◌, Text, text, length, drop,
  drop-append, arith,
}
use muthur_collector.Prelude.Hex.{hex}
use muthur_collector.Prelude.Quote.{quote}
use muthur_collector.Prelude.Result.{ok}
use muthur_collector.Prelude.Strings.{cut_last}
use muthur_collector.Prelude.Strings.Laws.{cut_last-append}
use muthur_collector.Auth.Crypto.{Hpke, IsHpke, Gcm, IsGcm}
use muthur_collector.Auth.HttpSig.{Primitives}
use muthur_collector.Auth.HttpSig.Params.{escape_all-hex}
use muthur_collector.Auth.HttpSig.RoundTrip.{IsSound}

abbrev pub enc : Text
enc = text "0123456789abcdef0123456789abcdef"

abbrev pub test_hpke : Hpke Text Text Text Text
test_hpke = record {
  public_bytes = λ k. k;
  public_key = λ k. k;
  parse_public = λ raw. ok raw;
  new_sender = λ random k info. ok (enc, k);
  seal = λ s aad pt. ok (aad ++ pt);
  sender_export = λ s label n. ok s;
  new_recipient = λ e k info. ok k;
  unseal = λ r aad ct. ok (drop (length aad) ct);
  recipient_export = λ r label n. ok r;
}

pub test_hpke-IsHpke : IsHpke test_hpke
test_hpke-IsHpke = record {
  enc_length = λ random k info e s made. let same : e ≡ enc = cc made in ap length same;
  agree = λ random k info e s made.
      let same : s ≡ k = cc made in
      (
        k,
        refl,
        λ aad pt ct sealed.
            let framed : ct ≡ aad ++ pt = cc sealed in
            rw framed (ap (λ (x : Text). ok x) (drop-append aad pt (length aad) refl)),
        λ label n. ap (λ (x : Text). ok x) (sym same),
      );
}

abbrev pub test_gcm : Gcm Text Text
test_gcm = record {
  new_cipher = λ k. ok k;
  new_aead = λ b. ok b;
  seal = λ a nonce pt. pt;
  unseal = λ a nonce ct. ok ct;
}

pub test_gcm-IsGcm : IsGcm test_gcm
test_gcm-IsGcm = record { unseal-seal = λ a nonce pt. refl }

abbrev strip_quotes : Text → Option Text
strip_quotes [] = none
strip_quotes (c ∷ s) = cut_last b'"' s

abbrev pub test_primitives : Primitives ℕ ℕ
test_primitives = record {
  sha256 = λ s. length s % 256 ∷ [];
  b64_encode = λ s. s;
  b64_decode = λ s. some s;
  unquote = strip_quotes;
  key_is_p256 = λ k. true;
  pub_is_p256 = λ k. true;
  sign = λ random k digest. ok (5, 7);
  verify = λ k digest r s. true;
}

pub test_primitives-IsSound : IsSound test_primitives (λ k. k)
unfolding quote
test_primitives-IsSound = record {
  p256 = λ k fine. refl;
  verifies = λ random k digest r s made.
      let r_eq : r ≡ 5 = cc made in let s_eq : s ≡ 7 = cc made in (refl, omega arith, omega arith);
  decodes = λ s. refl;
  digest_bytes = λ s. (omega arith, tt);
  unquotes = λ s bytes. rw (escape_all-hex s bytes) (cut_last-append b'"' (hex s));
}

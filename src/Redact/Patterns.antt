-- ===== src/Redact/Patterns.antt =====
-- internal/redact/patterns.go and rules.go: the patterns, built in and configured. The regular
-- expression engine is a parameter: `compile` is regexp.Compile, and a compiled expression is what
-- the redactor asks of it.
use muthur_collector.Prelude.Strings.{trim_space, split}
use Prim.Native.String.{String}
use muthur_collector.Prelude.{
  ℕ, Option, none, some, List, [], ◌∷◌, ◌++◌, Text, text, ◌==◌, nat_eq, bytes_eq, if◌then◌else◌,
}

pub record Regexp : Type 0 where
  -- len(FindAllStringIndex(s, -1))
  pub count_matches : Text → ℕ
  -- ReplaceAllString(s, replacement)
  pub replace_all : Text → Text → Text

pub record Pattern : Type 0 where
  pub category : Text
  pub name : Text
  pub regex : Regexp
  pub replacement : Text

module _ (must_compile : Text → Regexp) where
  abbrev builtin : String → String → String → String → Pattern
  builtin category name regex replacement = record {
    category = text category;
    name = text name;
    regex = must_compile (text regex);
    replacement = text replacement;
  }

  -- Order matters: the redactor applies the patterns from first to last.
  unfoldable pub builtin_patterns : List Pattern
  builtin_patterns =
      builtin "credentials" "bearer" "(?i)Bearer\\s+[A-Za-z0-9\\-._~+/]+=*" "[token]"
      ∷ builtin "credentials" "jwt" "eyJ[A-Za-z0-9_-]+\\.eyJ[A-Za-z0-9_-]+\\.[A-Za-z0-9_-]+" "[jwt]"
      ∷ builtin "credentials" "basic" "(?i)Basic\\s+[A-Za-z0-9+/]+=*" "[basic]"
      ∷ builtin "credentials" "aws-key" "(?:AKIA|ASIA)[A-Z0-9]{16}" "[aws-key]"
      ∷ builtin "credentials" "aws-secret"
          "(?i)(?:aws_secret_access_key|secret_key)\\s*[=:]\\s*[A-Za-z0-9/+=]{40}" "[aws-secret]"
      ∷ builtin "credentials" "private-key" "-----BEGIN (?:RSA |EC |DSA )?PRIVATE KEY-----"
          "[private-key]"
      ∷ builtin "credentials" "password" "(?i)password\\s*[=:]\\s*\\S+" "[password]"
      ∷ builtin "credentials" "apikey" "(?i)api[_-]?key\\s*[=:]\\s*\\S+" "[apikey]"
      ∷ builtin "financial" "visa" "\\b4[0-9]{12}(?:[0-9]{3})?\\b" "[card]"
      ∷ builtin "financial" "mastercard" "\\b5[1-5][0-9]{14}\\b" "[card]"
      ∷ builtin "financial" "amex" "\\b3[47][0-9]{13}\\b" "[card]"
      ∷ builtin "financial" "discover" "\\b6(?:011|5[0-9]{2})[0-9]{12}\\b" "[card]"
      ∷ builtin "financial" "iban" "\\b[A-Z]{2}\\d{2}[A-Z0-9]{4}\\d{7}(?:[A-Z0-9]?){0,16}\\b"
          "[iban]"
      ∷ builtin "other" "uuid"
          "\\b[0-9a-fA-F]{8}-[0-9a-fA-F]{4}-[0-9a-fA-F]{4}-[0-9a-fA-F]{4}-[0-9a-fA-F]{12}\\b"
          "[uuid]"
      ∷ builtin "pii" "email" "[a-zA-Z0-9._%+\\-]+@[a-zA-Z0-9.\\-]+\\.[a-zA-Z]{2,}" "[email]"
      ∷ builtin "pii" "ssn" "\\b[0-9]{3}-[0-9]{2}-[0-9]{4}\\b" "[ssn]"
      ∷ builtin "pii" "phone" "(?:\\+?1[-.\\s])?\\(?[0-9]{3}\\)[-.\\s][0-9]{3}[-.\\s][0-9]{4}\\b"
          "[phone]"
      ∷ builtin "pii" "address"
          "\\b\\d{1,5}\\s+[A-Z][a-zA-Z]*(?:\\s+[A-Z][a-zA-Z]*)*\\s+(?:Street|St|Avenue|Ave|Boulevard|Blvd|Drive|Dr|Road|Rd|Lane|Ln|Court|Ct|Way|Place|Pl)\\b"
          "[address]"
      ∷ builtin "network" "ipv4" "\\b(?:\\d{1,3}\\.){3}\\d{1,3}\\b" "[ip]"
      ∷ builtin "network" "ipv6"
          "(?i)\\b(?:[0-9a-f]{1,4}:){7}[0-9a-f]{1,4}\\b|(?i)\\b(?:[0-9a-f]{1,4}:){1,7}:|(?i)\\b(?:[0-9a-f]{1,4}:){1,6}:[0-9a-f]{1,4}\\b|(?i)::[0-9a-f]{1,4}(?::[0-9a-f]{1,4})*\\b"
          "[ip]"
      ∷ []

module _ (compile : Text → Option Regexp) where
  -- One configured expression: skipped if it is empty or does not compile.
  extra_pattern : Text → List Pattern
  extra_pattern p = if p == [] then [] else elim (compile p) [
    | none ↦ []
    | some re ↦
        (record { category = text "custom"; name = p; regex = re; replacement = text "[redacted]" })
        ∷ []
  ]

  extra_patterns : List Text → List Pattern
  unfolding extra_pattern
  extra_patterns [] = []
  extra_patterns (p ∷ ps) = extra_pattern (trim_space p) ++ extra_patterns ps

  unfoldable pub parse_extra_patterns : Text → List Pattern
  unfolding extra_patterns split trim_space
  parse_extra_patterns raw = if raw == [] then [] else extra_patterns (split b',' raw)

-- ===== src/Loki/Query.antt =====
-- The query of a pod.
use muthur_collector.Prelude.{◌≡◌, ◌<◌, ◌∷◌, [], ◌++◌, Text, text}
use muthur_collector.Prelude.All.{All}
use muthur_collector.Prelude.Quote.{quote, quote-injective}
use muthur_collector.Loki.{pod_query}

append-cancel : (p a b : Text) → p ++ a ≡ p ++ b → a ≡ b
append-cancel [] a b e = e
append-cancel (c ∷ p) a b e = append-cancel p a b (cc e)

-- Bytes of ASCII, on which `quote` is what %q writes.
abbrev pub IsAscii : Text → Type 0
IsAscii s = All (λ c. c < 128) s

-- For namespaces and pods of ASCII bytes, the query determines the namespace and the pod: the queries of
-- two pods are equal only if both names are.
pub pod_query-injective :
    (namespace pod namespace' pod' : Text)
    → IsAscii namespace
    → IsAscii pod
    → IsAscii namespace'
    → IsAscii pod'
    → pod_query namespace pod ≡ pod_query namespace' pod'
    → (namespace ≡ namespace') × (pod ≡ pod')
unfolding pod_query
pod_query-injective namespace pod namespace' pod' a b a' b' e =
    let (same, rest) =
      quote-injective namespace namespace' (text ", pod=" ++ (quote pod ++ text "}"))
        (text ", pod=" ++ (quote pod' ++ text "}")) (append-cancel (text "{namespace=") _ _ e) in
    (
      same,
      (quote-injective pod pod' (text "}") (text "}") (append-cancel (text ", pod=") _ _ rest)).0,
    )

-- ===== src/Loki/Limit.antt =====
-- FetchLogs and the limit on the lines.
use muthur_collector.Prelude.{
  ℕ, zero, suc, ◌≤◌, ◌≡◌, refl, sym, ap, ◌∙◌, inl, inr, true, false, none, some, List, [], ◌∷◌,
  ◌++◌, append_assoc, append-nil, Text, arith, length, take, take-all, Bool-cases, ◌≢◌, ◌↔◌,
}
use muthur_collector.Prelude.All.{Among}
use muthur_collector.Prelude.Int.{pos, negsuc, leb_ℤ}
use muthur_collector.Prelude.Result.{Result, ok, err, Result-cases}
use muthur_collector.Loki.{Api, Client, slice_to, fetch_pod_logs, fetch_loop, fetch_logs}

take-append_long {ℓ} :
    {A : Type ℓ} (n : ℕ) (xs ys : List A) → n ≤ length xs → take n (xs ++ ys) ≡ take n xs
take-append_long zero xs ys h = refl
take-append_long (suc n) [] ys h = absurd (omega arith)
take-append_long (suc n) (x ∷ xs) ys h =
    ap (λ (r : List _). x ∷ r) (take-append_long n xs ys (omega arith))

abbrev lines_or_none : Result Text (List Text) → List Text
lines_or_none (ok lines) = lines
lines_or_none (err e) = []

module _ (api : Api) (c : Client) (namespace : Text) where
  -- The lines of all pods whose logs can be fetched, in the order of the pods.
  unfoldable pub all_pod_logs : List Text → List Text
  all_pod_logs [] = []
  all_pod_logs (pod ∷ pods) =
      lines_or_none (fetch_pod_logs api c namespace pod) ++ all_pod_logs pods

  fetch_loop-skip :
      (pod : Text) (pods lines : List Text) (e : Text)
      → fetch_pod_logs api c namespace pod ≡ err e
      → fetch_loop api c namespace (pod ∷ pods) lines ≡ fetch_loop api c namespace pods lines
  unfolding fetch_loop
  fetch_loop-skip pod pods lines e failed = ground arith

  module _ (pod : Text) (pods lines more : List Text) where
    fetch_loop-full :
        fetch_pod_logs api c namespace pod ≡ ok more
        → leb_ℤ c.max_lines (pos (length (lines ++ more))) ≡ true
        → fetch_loop api c namespace (pod ∷ pods) lines ≡ slice_to (lines ++ more) c.max_lines
    unfolding fetch_loop
    fetch_loop-full fetched full = ground arith

    fetch_loop-room :
        fetch_pod_logs api c namespace pod ≡ ok more
        → leb_ℤ c.max_lines (pos (length (lines ++ more))) ≡ false
        → fetch_loop api c namespace (pod ∷ pods) lines
          ≡ fetch_loop api c namespace pods (lines ++ more)
    unfolding fetch_loop
    fetch_loop-room fetched room = ground arith

  module _ (n : ℕ) (limit : c.max_lines ≡ pos n) where
    fetch_loop-eq-take :
        (pods lines : List Text)
        → length lines ≤ n
        → fetch_loop api c namespace pods lines ≡ some (take n (lines ++ all_pod_logs pods))
    unfolding fetch_loop all_pod_logs slice_to
    fetch_loop-eq-take [] lines h =
        rw append-nil (ap (λ (l : List Text). some l) (sym (take-all n lines h)))
    fetch_loop-eq-take (pod ∷ pods) lines h =
        elim (Result-cases (fetch_pod_logs api c namespace pod)) [
          | inr (e, failed) ↦
              fetch_loop-skip pod pods lines e failed ∙ rw failed (fetch_loop-eq-take pods lines h)
          | inl (more, fetched) ↦
              elim (Bool-cases (leb_ℤ c.max_lines (pos (length (lines ++ more))))) [
                | inl full ↦
                    let long : n ≤ length (lines ++ more) = ground arith in
                    let cut = take-append_long n (lines ++ more) (all_pod_logs pods) long in
                    fetch_loop-full pod pods lines more fetched full
                    ∙ rw (fetched, ← append_assoc, cut) (ground arith)
                | inr room ↦
                    let short : length (lines ++ more) ≤ n = ground arith in
                    fetch_loop-room pod pods lines more fetched room
                    ∙ rw (fetched, ← append_assoc) (fetch_loop-eq-take pods (lines ++ more) short)
              ]
        ]

-- With a limit that is not negative, FetchLogs returns the first lines, up to the limit, of all pods
-- whose logs can be fetched, in the order of the pods. It neither panics nor returns an error.
pub fetch_logs-eq-take :
    (api : Api) (c : Client) (namespace : Text) (pods : List Text) (n : ℕ)
    → c.max_lines ≡ pos n
    → fetch_logs api c namespace pods ≡ some (ok (take n (all_pod_logs api c namespace pods)))
unfolding fetch_logs
fetch_logs-eq-take api c namespace pods n limit =
    rw (fetch_loop-eq-take api c namespace n limit pods [] (omega arith), fetch_logs) refl

module _ (api : Api) (c : Client) (namespace : Text) (n : ℕ) (limit : c.max_lines ≡ negsuc n) where
  fetch_loop-eq-none :
      (pods lines : List Text) (pod : Text)
      → Among pod pods
      → (more : List Text) × (fetch_pod_logs api c namespace pod ≡ ok more)
      → fetch_loop api c namespace pods lines ≡ none
  unfolding slice_to
  fetch_loop-eq-none [] lines pod among fetched = absurd among
  fetch_loop-eq-none (first ∷ pods) lines pod among (more, fetched) =
      elim (Result-cases (fetch_pod_logs api c namespace first)) [
        | inl (own, here) ↦
            fetch_loop-full api c namespace first pods lines own here (rw limit (ground arith))
            ∙ rw limit refl
        | inr (e, failed) ↦ fetch_loop-skip api c namespace first pods lines e failed ∙ elim among [
          | inl same ↦ absurd (let stop : ok more ≡ err e = cc (fetched, failed, same) in cc stop)
          | inr later ↦ fetch_loop-eq-none pods lines pod later (more, fetched)
        ]
      ]

  fetch_loop-fetched :
      (pods lines : List Text)
      → fetch_loop api c namespace pods lines ≡ none
      → (pod : Text) × Among pod pods
        × (more : List Text) × (fetch_pod_logs api c namespace pod ≡ ok more)
  unfolding fetch_loop
  fetch_loop-fetched [] lines stopped = cc
  fetch_loop-fetched (pod ∷ pods) lines stopped =
      elim (Result-cases (fetch_pod_logs api c namespace pod)) [
        | inl (more, fetched) ↦ (pod, inl refl, more, fetched)
        | inr (e, failed) ↦
            let (other, among, lines', found) =
              fetch_loop-fetched pods lines
                (sym (fetch_loop-skip api c namespace pod pods lines e failed) ∙ stopped) in
            (other, inr among, lines', found)
      ]

fetch_logs-stopped :
    (api : Api) (c : Client) (namespace : Text) (pods : List Text)
    → fetch_logs api c namespace pods ≡ none
    → fetch_loop api c namespace pods [] ≡ none
unfolding fetch_logs
fetch_logs-stopped api c namespace pods stopped = ground arith

-- With a negative limit, FetchLogs panics exactly if the logs of at least one of the pods can be
-- fetched, whichever it is and whatever fails before it.
pub fetch_logs-panic :
    (api : Api) (c : Client) (namespace : Text) (pods : List Text) (n : ℕ)
    → c.max_lines ≡ negsuc n
    → (fetch_logs api c namespace pods ≡ none) ↔ (
        (pod : Text) × Among pod pods
        × (lines : List Text) × (fetch_pod_logs api c namespace pod ≡ ok lines))
unfolding fetch_logs
fetch_logs-panic api c namespace pods n limit = (
  λ stopped.
      fetch_loop-fetched api c namespace n limit pods []
        (fetch_logs-stopped api c namespace pods stopped),
  λ (pod, among, lines, fetched).
      rw (fetch_loop-eq-none api c namespace n limit pods [] pod among (lines, fetched), fetch_logs)
        refl,
)

-- FetchLogs never returns an error, whatever fails: the caller's branch for one is never taken.
pub fetch_logs-ne-err :
    (api : Api) (c : Client) (namespace : Text) (pods : List Text) (e : Text)
    → fetch_logs api c namespace pods ≢ some (err e)
unfolding fetch_logs
fetch_logs-ne-err api c namespace pods e h = ground arith

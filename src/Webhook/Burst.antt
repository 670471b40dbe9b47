-- ===== src/Webhook/Burst.antt =====
-- One request, with no worker ending while it is handled.
use Prim.Native.Nat.{min}
use muthur_collector.Prelude.{
  ◌+◌, ◌-◌, ◌≤◌, ◌≡◌, Bool, true, false, List, [], ◌∷◌, Text, text, arith, length, ◌==◌, bytes_eq,
  ◌≢◌, ◌↔◌, ◌⊎◌, ◌||◌, not,
}
use muthur_collector.Prelude.Result.{Result, ok, err}
use muthur_collector.Webhook.{Alert, Gate, offer, offer_all, Request, read_alerts, serve_http}

-- A burst of alerts starts as many workers as there is room for, and drops the rest, one by one.
pub offer_all-counts :
    (alerts : List Alert) (g : Gate)
    → length g.running ≤ g.capacity
    → let g' = offer_all alerts g in
      (length g'.running ≡ min g.capacity (length g.running + length alerts))
      × (length g'.dropped ≡ length g.dropped + (length g.running + length alerts - g.capacity))
      × (g'.capacity ≡ g.capacity)
unfolding offer_all
offer_all-counts [] g h = omega arith
offer_all-counts (a ∷ alerts) g h = ground (arith, offer_all-counts alerts (offer a g))

-- The answer does not depend on the load: the same request gets the same answer from every gate.
pub serve_http-answer :
    (decode : Text → Result Text (List Alert)) (r : Request) (g g' : Gate)
    → (serve_http decode r g).0 ≡ (serve_http decode r g').0
unfolding serve_http
serve_http-answer decode r g g' = ground arith

abbrev pub is_err : Result Text (List Alert) → Bool
is_err (ok alerts) = false
is_err (err e) = true

-- A request is turned away (any status but 200) exactly if it is not a POST or its body cannot be read
-- and decoded; then the gate is left alone.
pub serve_http-rejects :
    (decode : Text → Result Text (List Alert)) (r : Request) (g : Gate)
    → (((serve_http decode r g).0.status ≢ 200)
        ↔ ((not (r.method == text "POST") || is_err (read_alerts decode r)) ≡ true))
      × (((serve_http decode r g).0.status ≡ 200) ⊎ ((serve_http decode r g).1 ≡ g))
unfolding serve_http
serve_http-rejects decode r g = ground arith

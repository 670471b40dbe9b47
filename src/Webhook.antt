-- ===== src/Webhook.antt =====
-- internal/webhook/handler.go: the HTTP handler and the semaphore in front of the workers.
pub mod Burst
pub mod Storm
use muthur_collector.Prelude.{
  ℕ, zero, suc, ◌+◌, ◌≡◌, Bool, true, false, not, Option, none, some, List, [], ◌∷◌, ◌++◌, Text,
  text, length, ltb, ◌==◌, bytes_eq, if◌then◌else◌,
}
use muthur_collector.Prelude.Int.{ℤ, pos, negsuc}
use muthur_collector.Prelude.Result.{Result, ok, err, ◌>>=◌}

pub record Alert : Type 0 where
  pub status : Text
  pub labels : List (Text × Text)
  pub annotations : List (Text × Text)
  -- The seconds of StartsAt and EndsAt.
  pub starts_at : ℤ
  pub ends_at : ℤ

-- The semaphore, with the alerts whose workers hold it, and the alerts that were dropped, which
-- AlertsDropped counts.
pub record Gate : Type 0 where
  pub capacity : ℕ
  pub running : List Alert
  pub dropped : List Alert

-- NewHandler: a value that is not positive falls back to 50.
abbrev capacity_or_default : ℤ → ℕ
capacity_or_default (pos zero) = 50
capacity_or_default (pos (suc n)) = suc n
capacity_or_default (negsuc n) = 50

unfoldable pub new_handler : ℤ → Gate
new_handler max_concurrent = record {
  capacity = capacity_or_default max_concurrent;
  running = [];
  dropped = [];
}

-- The select: a worker starts if the channel has room, and the alert is dropped if not.
unfoldable pub offer : Alert → Gate → Gate
offer a g =
    if ltb (length g.running) g.capacity
    then record g { running = a ∷ g.running }
    else record g { dropped = a ∷ g.dropped }

unfoldable pub offer_all : List Alert → Gate → Gate
unfolding offer
offer_all [] g = g
offer_all (a ∷ alerts) g = offer_all alerts (offer a g)

pub record Response : Type 0 where
  pub status : ℕ
  pub body : Text

-- io.ReadAll(r.Body) is `body`, json.Unmarshal into the payload is `decode`.
pub record Request : Type 0 where
  pub method : Text
  pub body : Result Text Text

abbrev pub accepted : Response
accepted = record { status = 200; body = text "ok" }

abbrev pub bad_request : Response
bad_request = record { status = 400; body = text "bad request\n" }

abbrev pub method_not_allowed : Response
method_not_allowed = record { status = 405; body = text "method not allowed\n" }

abbrev pub read_alerts : (Text → Result Text (List Alert)) → Request → Result Text (List Alert)
read_alerts decode r = do body ← r.body; decode body

unfoldable pub serve_http : (Text → Result Text (List Alert)) → Request → Gate → Response × Gate
unfolding offer_all
serve_http decode r g =
    if not (r.method == text "POST") then (method_not_allowed, g) else elim (read_alerts decode r) [
      | err e ↦ (bad_request, g)
      | ok alerts ↦ (accepted, offer_all alerts g)
    ]

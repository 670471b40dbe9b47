-- ===== src/Webhook/Storm.antt =====
-- Requests, workers and their interleavings.
use muthur_collector.Prelude.{
  ℕ, ◌+◌, ◌≤◌, ◌≡◌, refl, ap, ◌≢◌, Bool, List, [], ◌∷◌, ◌++◌, arith, length, length-append,
  if◌then◌else◌,
}
use muthur_collector.Webhook.{Alert, Gate, offer}

-- `pending` holds the alerts that handlers have decoded and not offered yet, `finished` those whose
-- workers have ended, and `received` all that ever came.
pub record System : Type 0 where
  pub gate : Gate
  pub pending : List Alert
  pub finished : List Alert
  pub received : List Alert

-- Handlers of several requests run at once, so any pending alert may be the next to be offered, and
-- any worker may be the next to end.
pub data Step (s s' : System) : Type 0 where
  receive :
      (alerts : List Alert)
      → s' ≡ record s { pending = s.pending ++ alerts; received = alerts ++ s.received }
      → Step s s'
  admit :
      (a : Alert) (before after : List Alert)
      → s.pending ≡ before ++ a ∷ after
      → s' ≡ record s { pending = before ++ after; gate = offer a s.gate }
      → Step s s'
  finish :
      (a : Alert) (before after : List Alert)
      → s.gate.running ≡ before ++ a ∷ after
      → s'
        ≡ record s { gate = record s.gate { running = before ++ after }; finished = a ∷ s.finished }
      → Step s s'

pub data Reach (s : System) : System → Type 0 where
  here : Reach s s
  next : {t u : System} → Reach s t → Step t u → Reach s u

-- How many of the alerts pass a test.
unfoldable pub count : (Alert → Bool) → List Alert → ℕ
count p [] = 0
count p (a ∷ alerts) = (if p a then 1 else 0) + count p alerts

count-append :
    (p : Alert → Bool) (xs ys : List Alert) → count p (xs ++ ys) ≡ count p xs + count p ys
unfolding count
count-append p [] ys = omega arith
count-append p (x ∷ xs) ys = omega (arith, count-append p xs ys)

count-offer :
    (p : Alert → Bool) (a : Alert) (g : Gate)
    → count p (offer a g).running + count p (offer a g).dropped
      ≡ count p g.running + count p g.dropped + (if p a then 1 else 0)
unfolding count offer
count-offer p a g = ground arith

abbrev IsWithin : System → Type 0
IsWithin s = length s.gate.running ≤ s.gate.capacity

Step-IsWithin : (s s' : System) → Step s s' → IsWithin s → IsWithin s'
unfolding offer
Step-IsWithin s s' (receive alerts e) h = rw e h
Step-IsWithin s s' (admit a before after split e) h = rw e (ground arith)
Step-IsWithin s s' (finish a before after split e) h =
    rw e
      (omega (arith, ap length split, length-append before (a ∷ after), length-append before after))

-- However requests and workers interleave, no more alerts are in work than the ceiling allows.
pub Reach-IsWithin :
    (s s' : System)
    → Reach s s'
    → length s.gate.running ≤ s.gate.capacity
    → length s'.gate.running ≤ s'.gate.capacity
Reach-IsWithin s s' here h = h
Reach-IsWithin s s' (next {t} r st) h = Step-IsWithin t s' st (Reach-IsWithin s t r h)

-- Each alert received is in one place.
abbrev pub IsConserved : (Alert → Bool) → System → Type 0
IsConserved p s =
    count p s.received
    ≡ count p s.pending + count p s.gate.running + count p s.gate.dropped + count p s.finished

Step-IsConserved :
    (p : Alert → Bool) (s s' : System) → Step s s' → IsConserved p s → IsConserved p s'
unfolding count
Step-IsConserved p s s' (receive alerts e) h =
    rw e (omega (arith, count-append p s.pending alerts, count-append p alerts s.received))
Step-IsConserved p s s' (admit a before after split e) h = rw e (
    omega (
      arith,
      ap (count p) split,
      count-append p before (a ∷ after),
      count-append p before after,
      count-offer p a s.gate,
    ))
Step-IsConserved p s s' (finish a before after split e) h = rw e (
    omega
      (arith, ap (count p) split, count-append p before (a ∷ after), count-append p before after))

-- However requests and workers interleave, no alert is lost or handled twice: of the alerts that pass
-- any test, as many were received as are pending, in work, dropped and finished together.
pub Reach-IsConserved :
    (p : Alert → Bool) (s s' : System) → Reach s s' → IsConserved p s → IsConserved p s'
Reach-IsConserved p s s' here h = h
Reach-IsConserved p s s' (next {t} r st) h =
    Step-IsConserved p t s' st (Reach-IsConserved p s t r h)

-- A step drops an alert only if as many workers run as the ceiling allows.
pub Step-drops_only_full :
    (s s' : System)
    → Step s s'
    → s'.gate.dropped ≢ s.gate.dropped
    → s.gate.capacity ≤ length s.gate.running
unfolding offer
Step-drops_only_full s s' (receive alerts e) h = absurd (h (rw e refl))
Step-drops_only_full s s' (admit a before after split e) h = ground arith
Step-drops_only_full s s' (finish a before after split e) h = absurd (h (rw e refl))

-- ===== src/Forwarder/Retry.antt =====
-- When Forward sends again, and how often.
use muthur_collector.Prelude.{
  ℕ, zero, suc, ◌+◌, ◌-◌, ◌≤◌, ◌<◌, ◌≡◌, Bool, true, false, not, Option, none, some, [], ◌∷◌, arith,
  length, take, ◌↔◌,
}
use muthur_collector.Errors.{Error}
use muthur_collector.Metrics.{Counters}
use muthur_collector.Proto.{AlertPayload}
use muthur_collector.Forwarder.{World, Code, is_permanent, send, forward}

-- A send failed in a way that may pass.
abbrev pub is_transient : (Error → Code) → Option Error → Bool
is_transient status_code none = false
is_transient status_code (some e) = not (is_permanent status_code e)

module _ {Cert : Type 0} (w : World Cert) (payload : AlertPayload) (m : Counters) where
  sends_bounds : (1 ≤ (forward w payload m).sends) × ((forward w payload m).sends ≤ 3)
  unfolding forward
  sends_bounds = ground arith

  sends-backoffs :
      let run = forward w payload m in
      (run.sends ≤ length run.backoffs + 1) × (length run.backoffs ≤ run.sends)
  unfolding forward
  sends-backoffs = ground arith

  backoffs-eq-take :
      (forward w payload m).backoffs ≡ take (length (forward w payload m).backoffs) (2 ∷ 4 ∷ [])
  unfolding forward
  backoffs-eq-take = ground arith

  -- Forward sends at least once and at most three times. Before the second send it waits 2 seconds and
  -- before the third 4, and the number of waits is that of the sends or one less.
  pub forward-bounds :
      let run = forward w payload m in
      (1 ≤ run.sends)
      × (run.sends ≤ 3)
      × (run.sends ≤ length run.backoffs + 1)
      × (length run.backoffs ≤ run.sends)
      × (run.backoffs ≡ take (length run.backoffs) (2 ∷ 4 ∷ []))
  forward-bounds =
      (sends_bounds.0, sends_bounds.1, sends-backoffs.0, sends-backoffs.1, backoffs-eq-take)

  -- Every send but the last failed with an error that is not permanent, and the wait after it was not
  -- cancelled: a permanent error, a success or the end of the context ends the run.
  pub forward-retries :
      (k : ℕ)
      → k + 1 < (forward w payload m).sends
      → (is_transient w.status_code (send w k payload) ≡ true) × (w.cancelled (k + 1) ≡ none)
  unfolding forward
  forward-retries zero h = ground arith
  forward-retries (suc zero) h = ground arith
  forward-retries (suc (suc k)) h = absurd (ground arith)

  -- Forward succeeds exactly if the last of its sends is accepted.
  pub forward-success_iff :
      ((forward w payload m).error ≡ none)
      ↔ (send w ((forward w payload m).sends - 1) payload ≡ none)
  unfolding forward
  forward-success_iff = ground arith

  -- If one of the three attempts is accepted, those before it failed with errors that are not
  -- permanent, and no wait up to it was cancelled, then Forward succeeds, and sends no more.
  pub forward_reaches :
      (k : ℕ)
      → k < 3
      → send w k payload ≡ none
      → ((j : ℕ) → j < k → is_transient w.status_code (send w j payload) ≡ true)
      → ((j : ℕ) → j < k → w.cancelled (j + 1) ≡ none)
      → ((forward w payload m).error ≡ none) × ((forward w payload m).sends ≡ k + 1)
  unfolding forward
  forward_reaches zero h accepted transient waits = ground arith
  forward_reaches (suc zero) h accepted transient waits =
      ground (arith, transient 0 (omega arith), waits 0 (omega arith))
  forward_reaches (suc (suc zero)) h accepted transient waits = ground (
    arith,
    transient 0 (omega arith),
    waits 0 (omega arith),
    transient 1 (omega arith),
    waits 1 (omega arith),
  )
  forward_reaches (suc (suc (suc k))) h accepted transient waits = absurd (omega arith)

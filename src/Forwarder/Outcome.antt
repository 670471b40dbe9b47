-- ===== src/Forwarder/Outcome.antt =====
-- What Forward reports.
use muthur_collector.Prelude.{ℕ, ◌+◌, ◌≡◌, Option, none, some, arith, length}
use muthur_collector.Errors.{Error}
use muthur_collector.Metrics.{Counters}
use muthur_collector.Proto.{AlertPayload}
use muthur_collector.Forwarder.{World, forward}

abbrev pub if_ok : Option Error → ℕ
if_ok none = 1
if_ok (some e) = 0

abbrev pub if_error : Option Error → ℕ
if_error none = 0
if_error (some e) = 1

-- However it ends, Forward counts one result, ok if it returns no error and error if it does, counts
-- each wait as a retry, and moves no other counter.
pub forward-counters :
    {Cert : Type 0} (w : World Cert) (payload : AlertPayload) (m : Counters)
    → let run = forward w payload m in
      run.counters ≡ record m {
        forwards_ok = m.forwards_ok + if_ok run.error;
        forwards_error = m.forwards_error + if_error run.error;
        forward_retries = m.forward_retries + length run.backoffs;
      }
unfolding forward
forward-counters w payload m = ground arith

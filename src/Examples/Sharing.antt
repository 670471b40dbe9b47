-- ===== src/Examples/Sharing.antt =====
-- Calls of a client that is shared.
use muthur_collector.Prelude.{ℕ, ◌≤◌, ◌⊎◌, [], ◌∷◌, Text, text, length, false}
use muthur_collector.Prelude.All.{All}
use muthur_collector.Auth.SignedClient.{call}
use muthur_collector.Auth.SignedClient.Workers.{Job, System, Reach, idle, ended}
use muthur_collector.Auth.SignedClient.Workers.Alone.{alone, tagged, call-runs}
use muthur_collector.Auth.SignedClient.Workers.Bounds.{steps}
use muthur_collector.Auth.SignedClient.Workers.Ends.{CanStep, IsEnded, Reach-ends}
use muthur_collector.Examples.Transport.{suite, attempt, credential, empty_client}

abbrev job : Job ℕ
job = record { path = text "/muthur/v1/ingest"; raw = text "hi"; cred = credential }

-- The state after that call alone.
abbrev answered : System Text ℕ
answered =
    let x = call suite attempt attempt job.path job.raw job.cred empty_client in
    alone suite job x.client false (tagged suite job x.requests) (ended x.result)

call-runs_example : Reach suite (idle empty_client (job ∷ [])) answered
call-runs_example = call-runs suite job attempt attempt empty_client

abbrev one_call : Reach suite (idle empty_client (job ∷ [])) answered
one_call = call-runs suite job attempt attempt empty_client

Reach-ends_example :
    (CanStep suite answered ⊎ All (IsEnded suite) answered.workers)
    × (steps suite (idle empty_client (job ∷ [])) answered one_call ≤ 6)
    × (length answered.shared.wire ≤ 2)
Reach-ends_example = Reach-ends suite attempt empty_client (job ∷ []) answered one_call tt

-- ===== src/Auth/SignedClient/Workers/Weights.antt =====
-- Weights of the places that a call can be at, and their sums over the calls.
use muthur_collector.Prelude.{ℕ, ◌+◌, ◌≡◌, Bool, List, [], ◌∷◌, ◌++◌, arith, if◌then◌else◌}
use muthur_collector.Auth.SignedClient.Workers.{Job, Pc, asking, holding, keyed, ended, Worker}

-- The sum of a weight over the workers.
unfoldable pub weigh : {Pub Key : Type 0} → (Pc Pub → ℕ) → List (Worker Pub Key) → ℕ
weigh f [] = 0
weigh f (w ∷ workers) = f w.pc + weigh f workers

pub weigh-append :
    {Pub Key : Type 0} (f : Pc Pub → ℕ) (xs ys : List (Worker Pub Key))
    → weigh f (xs ++ ys) ≡ weigh f xs + weigh f ys
unfolding weigh
weigh-append f [] ys = omega arith
weigh-append f (x ∷ xs) ys = omega (arith, weigh-append f xs ys)

-- The weight before and after one worker has moved.
pub weigh-move :
    {Pub Key : Type 0} (f : Pc Pub → ℕ) (workers workers' before after : List (Worker Pub Key))
    (job : Job Key) (pc pc' : Pc Pub)
    → workers ≡ before ++ record { job = job; pc = pc } ∷ after
    → workers' ≡ before ++ record { job = job; pc = pc' } ∷ after
    → weigh f workers' + f pc ≡ weigh f workers + f pc'
unfolding weigh
weigh-move f workers workers' before after job pc pc' e e' =
    rw (e, e')
      (omega (
        arith,
        weigh-append f before (record { job = job; pc = pc } ∷ after),
        weigh-append f before (record { job = job; pc = pc' } ∷ after),
      ))

-- 1 for a worker that holds the mutex.
abbrev pub holds : {Pub : Type 0} → Pc Pub → ℕ
holds (holding refresh) = 1
holds _ = 0

-- How many requests a worker may still post.
abbrev pub posts_left : {Pub : Type 0} → Pc Pub → ℕ
posts_left (asking refresh) = if refresh then 1 else 2
posts_left (holding refresh) = if refresh then 1 else 2
posts_left (keyed refresh k) = if refresh then 1 else 2
posts_left (ended result) = 0

abbrev pub flag : Bool → ℕ
flag b = if b then 1 else 0

-- How many moves a worker may still make.
abbrev pub moves_left : {Pub : Type 0} → Pc Pub → ℕ
moves_left (asking refresh) = if refresh then 3 else 6
moves_left (holding refresh) = if refresh then 2 else 5
moves_left (keyed refresh k) = if refresh then 1 else 4
moves_left (ended result) = 0

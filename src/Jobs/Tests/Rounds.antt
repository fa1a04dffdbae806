-- ===== src/Jobs/Tests/Rounds.antt =====
-- demo/jobs.py: rounds of recoveries and claims on a small queue, and the theorem on them.
use stock_signal.Common.{◌+◌, ◌*◌, length, ◌≡◌, refl, List, [], ◌∷◌, true, All, lt→ltb, arith}
use stock_signal.Jobs.Data.{failed, Database}
use stock_signal.Jobs.Monad.{ok}
use stock_signal.Jobs.Owner.{lease_duration}
use stock_signal.Jobs.Calls.{Call, perform, history}
use stock_signal.Jobs.Valid.{is_ended}
use stock_signal.Jobs.Drains.{Round, IsDueAfter, abandoned, abandoned_runs_end}
use Prim.Native.Nat.{◌≤◌}
use stock_signal.Jobs.Tests.{env, lease, working, states, working-IsValid, program}

abbrev rounds : List Round
rounds =
    record { wait = 31; pause = 1; token = 41 }
    ∷ record { wait = 31; pause = 1; token = 42 }
    ∷ record { wait = 40; pause = 0; token = 43 }
    ∷ record { wait = 31; pause = 5; token = 44 }
    ∷ []

after : Database
after = (history env 35 (abandoned lease rounds) working).1

-- The run that has had two attempts fails, and the other one after two claims more.
both_failed : states (perform env 300 Call.recovers after) ≡ failed ∷ failed ∷ []
unfolding program after
both_failed = refl

lease_30 : lease_duration lease ≡ ok 30
unfolding lease_duration
lease_30 = refl

working-due : IsDueAfter (35 + 30) working
unfolding program
working-due now h = (λ e. lt→ltb 65 now h, (λ e. cc, tt))

enough : 2 * length working.jobs ≤ length rounds
unfolding program
enough = omega arith

abandoned_runs_end_example :
    let (last, d) = history env 35 (abandoned lease rounds) working in
    All (λ r. is_ended r.state ≡ true) (perform env (last + 31) Call.recovers d).jobs
abandoned_runs_end_example =
    abandoned_runs_end env 35 lease 30 31 rounds working working-IsValid working-due lease_30
      (omega arith, (omega arith, (omega arith, (omega arith, tt)))) (omega arith) enough

-- ===== src/RoutingService/Schedule.antt =====
-- The coroutines of the routing service (client/routingservice.py) under the event loop of asyncio
-- and the timer of its queues, in any order.
use raft_2pc_database.Prelude.{ℕ, zero, suc, ℤ, List, [], ◌∷◌, ◌++◌, get_elem?, none, some}
use raft_2pc_database.Message.{WrapperMessage}
use raft_2pc_database.RoutingService.Config.{item, LocalConfig}
use raft_2pc_database.RoutingService.{init, RoutingService, Task, Outcome, Ran}
use raft_2pc_database.RoutingService.Redirect.{expire}
use raft_2pc_database.RoutingService.Handlers.{resume, handle_request}

pub record System : Type 0 where
  pub service : RoutingService
  pub tasks : List Task  -- the coroutines that await, the oldest first

-- A connection brings a message, the awaited call of a coroutine comes back, and the timer looks
-- at the queue of one cluster. The source looks at all queues one after the other.
pub data Event : Type 0 where
  arrive : (writer : ℕ) → WrapperMessage → Event
  come_back : (task : ℕ) → Outcome → Event
  check_queue : (cluster_id : ℤ) → Event

abbrev remove : List Task → ℕ → List Task
remove [] n = []
remove (t ∷ ts) zero = ts
remove (t ∷ ts) (suc n) = t ∷ remove ts n

abbrev pub await_next : List Task → Ran → System
await_next ts (s, none) = record { service = s; tasks = ts }
await_next ts (s, some t) = record { service = s; tasks = ts ++ (t ∷ []) }

module _ (c : LocalConfig) where
  unfoldable pub start : System
  start = record { service = init c; tasks = [] }

  unfoldable pub step : ℕ → Event → System → System
  step now (Event.arrive writer message) sys =
      await_next sys.tasks (handle_request c now writer message sys.service)
  step now (Event.come_back n outcome) sys = elim (get_elem? sys.tasks n) [
    | none ↦ sys
    | some task ↦ await_next (remove sys.tasks n) (resume c now outcome task sys.service)
  ]
  step now (Event.check_queue cluster_id) sys =
      elim (item sys.service.transaction_request cluster_id) [
        | none ↦ sys
        | some queue ↦ await_next sys.tasks (expire c now cluster_id queue [] sys.service)
      ]

  -- Events with the time of each.
  unfoldable pub run : List (ℕ × Event) → System → System
  run [] sys = sys
  run ((now, event) ∷ events) sys = run events (step now event sys)

  -- One coroutine, while no other one runs, with the outcomes of its awaited calls.
  unfoldable pub run_alone : ℕ → List Outcome → Ran → Ran
  run_alone now [] ran = ran
  run_alone now (outcome ∷ outcomes) (s, none) = (s, none)
  run_alone now (outcome ∷ outcomes) (s, some task) =
      run_alone now outcomes (resume c now outcome task s)

-- ===== src/Server/Slots.antt =====
-- The matched sizes of a leader over the whole event loop (`AIOServer::run`).
use raft_2pc_database.Prelude.{ℤ, List, ok, ◌≡◌}
use raft_2pc_database.Command.Format.{Fmt}
use raft_2pc_database.DataShard.{Json}
use raft_2pc_database.RaftState.{RaftState}
use raft_2pc_database.Aio.{Completion}
use raft_2pc_database.Util.{Util}
use raft_2pc_database.Executors.{all_executors}
use raft_2pc_database.Executors.Slots.{HasSlots, KeepsSlots, slots_laws}
use raft_2pc_database.Server.Defs.{AioServer}
use raft_2pc_database.Server.Broadcast.{become_candidate}
use raft_2pc_database.Server.EventLoop.{run_loop}
use raft_2pc_database.Server.Keeping.{Keeping, run_loop-Keeps}

slots_keeping : Keeping KeepsSlots
slots_keeping = record {
  same = λ s has. has;
  trans = λ p q has. q (p has);
  beat = λ s z has. has;
  forget = λ s has. has;
}

become_candidate-KeepsSlots : (id : ℤ) (s : RaftState) → KeepsSlots s (become_candidate id s)
unfolding become_candidate
become_candidate-KeepsSlots id s has leads = cc

-- With the executors of the repository, a server that has three matched log sizes whenever it is
-- leader has them so again after any completions that its event loop takes without an exit or
-- undefined behaviour: through messages of every kind, elections, heart beats and pretended
-- failures.
pub run_loop-HasSlots :
    (fmt : Fmt) (json : Json) (util : Util) (socket : ℤ) (cs : List Completion) (server : AioServer)
    {t : AioServer}
    → HasSlots server.world.raft
    → run_loop (all_executors fmt json) util socket cs server ≡ ok t
    → HasSlots t.world.raft
run_loop-HasSlots fmt json util socket cs server has h =
    run_loop-Keeps slots_keeping (all_executors fmt json) (slots_laws fmt json) util
      become_candidate-KeepsSlots socket cs server h has

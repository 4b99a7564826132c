-- ===== src/Executors/Slots.antt =====
-- The matched sizes of a leader, one for each server of the cluster, through every handler.
use raft_2pc_database.Prelude.{length, ◌≡◌, arith}
use raft_2pc_database.Message.{RequestVoteReq, RequestVoteRsp}
use raft_2pc_database.Command.Format.{Fmt}
use raft_2pc_database.DataShard.{Json}
use raft_2pc_database.RaftState.{RaftState, Role}
use raft_2pc_database.RequestVote
use raft_2pc_database.Cluster.Quiet.{Quiet}
use raft_2pc_database.Executors.{all_executors}
use raft_2pc_database.Executors.Laws.{LawfulExecutors, all_laws}

-- A leader has three matched sizes.
abbrev pub HasSlots : RaftState → Type 0
HasSlots s = s.role ≡ Role.leader → length s.matched_log_size ≡ 3

abbrev pub KeepsSlots : RaftState → RaftState → Type 0
KeepsSlots s t = HasSlots s → HasSlots t

Quiet-KeepsSlots : {s t : RaftState} → Quiet s t → KeepsSlots s t
Quiet-KeepsSlots q has leads = ground (arith, q, has, leads)

answer-KeepsSlots :
    (req : RequestVoteReq) (s : RaftState) → KeepsSlots s (RequestVote.answer req s).0
unfolding RequestVote.answer
answer-KeepsSlots req s has leads = ground (arith, has, leads)

counted-KeepsSlots :
    (rsp : RequestVoteRsp) (s : RaftState)
    → KeepsSlots s (RequestVote.step_down rsp.term (RequestVote.receive_vote rsp s))
unfolding RequestVote.step_down RequestVote.receive_vote RequestVote.count_vote
counted-KeepsSlots rsp s has leads = ground (arith, has, leads)

pub slots_laws : (fmt : Fmt) (json : Json) → LawfulExecutors KeepsSlots (all_executors fmt json)
slots_laws = all_laws (record {
  same = λ s has. has;
  quiet = Quiet-KeepsSlots;
  answered = answer-KeepsSlots;
  counted = counted-KeepsSlots;
})

-- ===== src/Tests/Rounds.antt =====
-- A server whose timer fires: it asks for votes.
use raft_2pc_database.Prelude.{
  ◌∷◌, true, pos, negsuc, [], ◌≡◌, refl, arith, ok, ◌<ℤ◌, add_int, int32, ◌+ℤ◌, ◌-ℤ◌,
}
use raft_2pc_database.Command.Decimal.{decimal_fmt}
use raft_2pc_database.DataShard.{load_data_shard, read_file}
use raft_2pc_database.RaftState
use raft_2pc_database.RaftState.{Role, prevlogindex, prevlogterm, lastlogindex, lastlogterm}
use raft_2pc_database.Aio.{AioData, AioEventType, AioMessageType, Completion}
use raft_2pc_database.Executors.{all_executors}
use raft_2pc_database.Executors.Laws.{KeepsVote, LawfulExecutors, all_executors-Lawful}
use raft_2pc_database.Server.{
  broadcast_heart_beat, routing_heart_beat, send_heart_beats, heart_beat, entries_from, peer_id,
  AioServer, handle, on_event, on_timeout, broadcast_vote, become_candidate, vote_req, send_votes,
  connect_server, connect, start,
}
use raft_2pc_database.Server.{minus_etime, run_loop}
use raft_2pc_database.Server.Timeouts.{Candidacy, run_loop-Candidacy}
use raft_2pc_database.Executors.Slots.{HasSlots}
use raft_2pc_database.Server.Slots.{run_loop-HasSlots}
use raft_2pc_database.Server.Terms.{handle-KeepsVote}
use raft_2pc_database.Tests.Inputs.{no_json}
use raft_2pc_database.Tests.Servers.{executors, utils, timed_server}

abbrev timer : Completion
timer = Completion.completed (negsuc 61) (record {
  fd = pos 0;
  event_type = AioEventType.event_timeout;
  buf = [];
  message_type = AioMessageType.no_write;
})

all_executors-Lawful_example : LawfulExecutors KeepsVote (all_executors decimal_fmt no_json)
all_executors-Lawful_example = all_executors-Lawful decimal_fmt no_json

candidate : (t : AioServer) × (handle executors utils (pos 3) timer timed_server ≡ ok t)
unfolding handle on_event on_timeout broadcast_vote become_candidate vote_req send_votes
    connect_server connect lastlogindex lastlogterm start load_data_shard read_file RaftState.init
    int32 ◌+ℤ◌
candidate = (_, refl)

term_small :
    timed_server.world.raft.current_term <ℤ add_int timed_server.world.raft.current_term (pos 1)
unfolding start load_data_shard read_file RaftState.init int32 ◌+ℤ◌
term_small = omega arith

handle-KeepsVote_example : KeepsVote timed_server.world.raft candidate.0.world.raft
handle-KeepsVote_example =
    handle-KeepsVote executors (all_executors-Lawful decimal_fmt no_json) utils (pos 3) timer
      timed_server term_small candidate.1

-- A follower that has heard a heart beat, and two timers.
abbrev heard_server : AioServer
heard_server = record timed_server {
  world = record timed_server.world {
    raft = record timed_server.world.raft { heard_heart_beat = true };
  };
}

abbrev timer_event : AioData
timer_event = record {
  fd = pos 0;
  event_type = AioEventType.event_timeout;
  buf = [];
  message_type = AioMessageType.no_write;
}

heard_follows : heard_server.world.raft.role ≡ Role.follower
unfolding start load_data_shard read_file RaftState.init
heard_follows = refl

run_loop-Candidacy_example :
    (t : AioServer) × (run_loop executors utils
        (pos 3)
        (Completion.completed minus_etime timer_event
          ∷ Completion.completed minus_etime timer_event
          ∷ [])
        heard_server
      ≡ ok t)
    × Candidacy heard_server (([], pos 8001) ∷ ([], pos 8002) ∷ ([], pos 8003) ∷ []) t
unfolding start
run_loop-Candidacy_example =
    run_loop-Candidacy executors utils (pos 3) timer_event timer_event heard_server ([], pos 8001)
      ([], pos 8002) ([], pos 8003) [] refl refl heard_follows refl refl refl refl

-- A leader that sends its heart beats.
abbrev beating_server : AioServer
beating_server = record timed_server {
  world = record timed_server.world {
    raft = record timed_server.world.raft {
      role = Role.leader;
      matched_log_size = pos 0 ∷ pos 0 ∷ pos 0 ∷ [];
    };
  };
}

beating_server-HasSlots : HasSlots beating_server.world.raft
beating_server-HasSlots leads = refl

beaten : (t : AioServer) × (run_loop executors utils (pos 3) (timer ∷ []) beating_server ≡ ok t)
unfolding run_loop handle on_event on_timeout broadcast_heart_beat routing_heart_beat
    send_heart_beats heart_beat entries_from peer_id prevlogindex prevlogterm connect_server connect
    start load_data_shard read_file RaftState.init int32 ◌+ℤ◌ ◌-ℤ◌
beaten = (_, refl)

run_loop-HasSlots_example : HasSlots beaten.0.world.raft
run_loop-HasSlots_example =
    run_loop-HasSlots decimal_fmt no_json utils (pos 3) (timer ∷ []) beating_server
      beating_server-HasSlots beaten.1

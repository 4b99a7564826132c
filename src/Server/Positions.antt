-- ===== src/Server/Positions.antt =====
-- The indices of the log entries over a leader's steps and its heart beats: they are the positions.
use raft_2pc_database.Prelude.{
  ℕ, suc, ◌+◌, List, [], ◌∷◌, arith, ◌<◌, ◌^◌, ℤ, pos, length, map, add_int, int32-InRange, InRange,
  ◌-ℤ◌, at, ok, ap, subst, sym, ◌≡◌, ◌∙◌,
}
use raft_2pc_database.Message.{AppendEntriesReq, AppendEntriesRsp}
use raft_2pc_database.Command.Format.{Fmt}
use raft_2pc_database.DataShard.{Json}
use raft_2pc_database.RaftState.{RaftState, LogEntry, lastlogindex}
use raft_2pc_database.World.{World}
use raft_2pc_database.AppendEntries.{answer, log_entry}
use raft_2pc_database.AppendEntries.Indices.{
  IndexedFrom, IndexedFrom-drop, lastlogindex-IndexedFrom, answer-IndexedFrom,
}
use raft_2pc_database.AppendEntries.Ready.{IsReady}
use raft_2pc_database.Server.Broadcast.{heart_beat, message_entry}
use raft_2pc_database.Server.Replicate.{heart_beat-Beat, after_before}
use raft_2pc_database.Server.Leadership.{LeaderRun, run-IsReady}

-- The index of an entry is its position, and so the last log index is one below the size.
pub record IsPlaced (s : RaftState) : Type 0 where
  pub indices : IndexedFrom 0 s.log
  pub last : lastlogindex s ≡ pos (length s.log) -ℤ pos 1

placed : (s : RaftState) → IndexedFrom 0 s.log → IsPlaced s
placed s h = record { indices = h; last = lastlogindex-IndexedFrom s h }

-- What a leader sends of its log has the indices that the log has.
IndexedFrom-sent :
    (n : ℕ) (xs : List LogEntry)
    → IndexedFrom n xs
    → IndexedFrom n (map log_entry (map message_entry xs))
IndexedFrom-sent n [] h = tt
IndexedFrom-sent n (x ∷ xs) h = (h.0, IndexedFrom-sent (suc n) xs h.1)

-- A heart beat numbers its entries on from the previous index.
heart_beat-IndexedFrom :
    (server_id : ℤ) (idx m : ℕ) (s : RaftState) (req : AppendEntriesReq)
    → at s.matched_log_size (pos idx) ≡ ok (pos m)
    → IndexedFrom 0 s.log
    → heart_beat server_id idx s ≡ ok req
    → IndexedFrom m (map log_entry req.entries)
heart_beat-IndexedFrom server_id idx m s req matched h sent =
    let beat = heart_beat-Beat server_id idx m s req matched sent in
    let start : 0 + m ≡ m = omega arith in
    rw beat.entries (IndexedFrom-sent m _ (rw start at (IndexedFrom-drop 0 m s.log h)))

-- A follower after its answer to a heart beat.
heart_beat-answer :
    (server_id : ℤ) (idx m : ℕ) (s f : RaftState) {req : AppendEntriesReq} {f' : RaftState}
    {rsp : AppendEntriesRsp}
    → at s.matched_log_size (pos idx) ≡ ok (pos m)
    → m < 2 ^ 31
    → length f.log < 2 ^ 31
    → IndexedFrom 0 s.log
    → IndexedFrom 0 f.log
    → heart_beat server_id idx s ≡ ok req
    → answer req f ≡ ok (f', rsp)
    → IndexedFrom 0 f'.log
heart_beat-answer server_id idx m s f {req} matched small short leads follows sent answered =
    let beat = heart_beat-Beat server_id idx m s req matched sent in
    answer-IndexedFrom req f m short
      (subst InRange (sym beat.prev_index) (int32-InRange (pos m -ℤ pos 1)))
      (ap (λ i. add_int i (pos 1)) beat.prev_index ∙ after_before m small)
      (heart_beat-IndexedFrom server_id idx m s req matched leads sent) follows answered

module _ (fmt : Fmt) (json : Json) (w : World) (ready : IsReady w.raft) where
  -- The index of every log entry is its position, and the last log index is one below the size
  -- of the log: at a leader after any sequence of intra-shard requests, cross-shard requests in
  -- any phase, answers of followers and heart beats, and at a follower after its answer to the
  -- heart beat that this leader sends it next, whether it accepts the entries or not. This holds
  -- if both logs have their positions as indices before, both stay shorter than 2^31, the count
  -- of matched entries for the follower is not negative and below 2^31, the leader starts with
  -- three matched sizes, a commit index of at least -1 in its log, a coming commit index below
  -- the end of the log and commands that can be read, the log has room for one entry for each
  -- step, and the numbers of the requests are of type int and the follower ids of the answers
  -- not negative.
  pub run-IsPlaced :
      {n : ℕ} {t : World} (server_id : ℤ) (idx m : ℕ) (f : RaftState) {req : AppendEntriesReq}
      {f' : RaftState} {rsp : AppendEntriesRsp}
      → length w.raft.log + n < 2 ^ 31
      → LeaderRun fmt json w n t
      → at t.raft.matched_log_size (pos idx) ≡ ok (pos m)
      → m < 2 ^ 31
      → length f.log < 2 ^ 31
      → IndexedFrom 0 w.raft.log
      → IndexedFrom 0 f.log
      → heart_beat server_id idx t.raft ≡ ok req
      → answer req f ≡ ok (f', rsp)
      → IsPlaced t.raft × IsPlaced f'
  run-IsPlaced {t = t} server_id idx m f {f' = f'} room run matched small short leads follows sent
        answered =
      let leader = (run-IsReady fmt json w ready room run).2 leads in
      let follower =
        heart_beat-answer server_id idx m t.raft f matched small short leader follows sent
          answered in
      (placed t.raft leader, placed f' follower)

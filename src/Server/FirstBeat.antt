-- ===== src/Server/FirstBeat.antt =====
-- The heart beats of a leader that takes its whole log to be matched
-- (`AIOServer::broadcast_heart_beat`).
use raft_2pc_database.Prelude.{
  ℕ, zero, suc, ◌≤◌, ◌<◌, ◌+◌, ◌^◌, ℤ, pos, minus_one, false, List, length, replicate, Bool-cases,
  inl, inr, eq_ℤ, sub_int, int32, ◌-ℤ◌, get_elem?_in_range, ok, at, ◌≡◌, refl, arith, ap, ◌∙◌,
}
use raft_2pc_database.Message.{AppendEntriesReq, WrapperMessage}
use raft_2pc_database.Aio.{AioMessageType}
use raft_2pc_database.RaftState.{RaftState, LogEntry, log_size, prevlogindex, prevlogterm}
use raft_2pc_database.World.{World, with_raft}
use raft_2pc_database.AppendEntries.Totality.{at-ok, log_size-pos}
use raft_2pc_database.Server.Defs.{AioServer, Address}
use raft_2pc_database.Server.Broadcast.{
  mod_cluster, heart_beat, connect, connect_server, send_heart_beats, broadcast_heart_beat,
  routing_heart_beat,
}

-- Every server is taken to have the whole log of the new leader.
abbrev pub IsFresh : RaftState → Type 0
IsFresh s = s.matched_log_size ≡ replicate 3 (log_size s)

fresh_at :
    (s : RaftState) (idx : ℕ)
    → IsFresh s
    → idx < 3
    → at s.matched_log_size (pos idx) ≡ ok (log_size s)
fresh_at s zero fresh lt = rw fresh refl
fresh_at s (suc zero) fresh lt = rw fresh refl
fresh_at s (suc (suc zero)) fresh lt = rw fresh refl
fresh_at s (suc (suc (suc idx))) fresh lt = absurd (omega arith)

last_entry :
    (log : List LogEntry)
    → length log < 2 ^ 31
    → eq_ℤ (pos (length log)) (pos 0) ≡ false
    → (e : LogEntry) × (at log (sub_int (pos (length log)) (pos 1)) ≡ ok e)
unfolding int32 ◌-ℤ◌
last_entry log small some_entry =
    at-ok log _ (ground (arith, some_entry)) (ground (arith, some_entry))

prevlogterm-fresh :
    (s : RaftState) (idx : ℕ)
    → IsFresh s
    → length s.log < 2 ^ 31
    → idx < 3
    → (term : ℤ) × (prevlogterm s (pos idx) ≡ ok term)
unfolding prevlogterm
prevlogterm-fresh s idx fresh small lt =
    let matched = fresh_at s idx fresh lt ∙ ap ok (log_size-pos s small) in
    elim (Bool-cases (eq_ℤ (pos (length s.log)) (pos 0))) [
      | inl nothing ↦ (minus_one, rw (prevlogterm, matched, nothing) refl)
      | inr some_entry ↦
          let (e, found) = last_entry s.log small some_entry in
          (e.term, rw (prevlogterm, matched, some_entry, found) refl)
    ]

heart_beat-fresh :
    (server_id : ℤ) (s : RaftState) (idx : ℕ)
    → IsFresh s
    → length s.log < 2 ^ 31
    → idx < 3
    → (req : AppendEntriesReq) × (heart_beat server_id idx s ≡ ok req)
unfolding heart_beat prevlogindex
heart_beat-fresh server_id s idx fresh small lt =
    let matched = fresh_at s idx fresh lt in
    let (term, prev) = prevlogterm-fresh s idx fresh small lt in
    let index : prevlogindex s (pos idx) ≡ ok (sub_int (log_size s) (pos 1)) =
      rw (prevlogindex, matched) refl in
    rw (heart_beat, index, prev, matched) (_, refl)

module _ (server : AioServer) (row : List Address)
    (known : at server.server_addresses server.cluster_id ≡ ok row) (full : 3 ≤ length row) where
  send_heart_beats-fresh :
      (k idx : ℕ) (w : World)
      → IsFresh w.raft
      → length w.raft.log < 2 ^ 31
      → idx + k ≤ 3
      → (t : World) × (send_heart_beats server k idx w ≡ ok t)
  unfolding send_heart_beats connect_server connect
  send_heart_beats-fresh zero idx w fresh small le = (w, refl)
  send_heart_beats-fresh (suc k) idx w fresh small le =
      elim (Bool-cases (eq_ℤ (pos idx) (mod_cluster server.server_id))) [
        | inl own ↦
            let (t, rest) = send_heart_beats-fresh k (suc idx) w fresh small (omega arith) in
            (t, rw own rest)
        | inr other ↦
            let (req, beat) =
              heart_beat-fresh server.server_id w.raft idx fresh small (omega arith) in
            let (address, there) = get_elem?_in_range row idx (omega arith) in
            let msg = WrapperMessage.append_entries_req req in
            let (t, rest) =
              send_heart_beats-fresh k (suc idx)
                (connect address msg AioMessageType.wait_response w) fresh small (omega arith) in
            (t, rw (other, beat, known, there) rest)
      ]

  pub broadcast_heart_beat-fresh :
      IsFresh server.world.raft
      → length server.world.raft.log < 2 ^ 31
      → (t : World) × (broadcast_heart_beat server ≡ ok t)
  unfolding broadcast_heart_beat connect
  broadcast_heart_beat-fresh fresh small =
      let w =
        connect server.routing_service
          (WrapperMessage.append_entries_req
            (routing_heart_beat server.server_id server.world.raft))
          AioMessageType.no_response server.world in
      let s = record w.raft { coming_commit_index = sub_int (log_size w.raft) (pos 1) } in
      send_heart_beats-fresh 3 0 (with_raft s w) fresh small (omega arith)

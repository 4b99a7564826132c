-- ===== src/Executors/Laws.antt =====
-- What every executor keeps of the term and the vote, as laws of the interface.
use raft_2pc_database.Prelude.{
  subst, ok-injective, ℤ, minus_one, ◌≡◌, ◌≢◌, arith, ◌≤ℤ◌, ok, Result, >>=-eq-ok,
}
use raft_2pc_database.Message.{RequestVoteReq, RequestVoteRsp}
use raft_2pc_database.Command.Format.{Fmt}
use raft_2pc_database.DataShard.{Json}
use raft_2pc_database.RaftState.{RaftState}
use raft_2pc_database.World.{World}
use raft_2pc_database.RequestVote
use raft_2pc_database.AppendEntries
use raft_2pc_database.Print
use raft_2pc_database.Cluster.Quiet.{
  Quiet, append_req-Quiet, append_rsp-Quiet, intra_shard-Quiet, cross_shard-Quiet,
}
use raft_2pc_database.Executors.{Handler, Executors, all_executors}

-- The term has not gone down, and within the term a vote that was cast is kept.
pub record KeepsVote (s t : RaftState) : Type 0 where
  pub term_up : s.current_term ≤ℤ t.current_term
  pub vote_kept :
      t.current_term ≡ s.current_term → s.voted_for ≢ minus_one → t.voted_for ≡ s.voted_for

pub KeepsVote-refl : (s : RaftState) → KeepsVote s s
KeepsVote-refl s = ground arith

-- A law for one static function.
abbrev pub IsLawful : (RaftState → RaftState → Type 0) → {M : Type 0} → Handler M → Type 0
IsLawful R {M} handler = (fd : ℤ) (m : M) (w w' : World) → handler fd m w ≡ ok w' → R w.raft w'.raft

-- The laws of the interface.
pub record LawfulExecutors (R : RaftState → RaftState → Type 0) (e : Executors) : Type 0 where
  pub vote_req : IsLawful R e.request_vote.execute_req
  pub vote_rsp : IsLawful R e.request_vote.execute_rsp
  pub append_req : IsLawful R e.append_entries.execute_req
  pub append_rsp : IsLawful R e.append_entries.execute_rsp
  pub intra : IsLawful R e.intra_shard.execute_req
  pub cross : IsLawful R e.cross_shard.execute_req
  pub balance : IsLawful R e.print_balance.execute_req
  pub datastore : IsLawful R e.print_datastore.execute_req

-- A relation that the handlers of the repository keep: the election's, by what they do to the Raft
-- state, and all others, because they are quiet.
pub record Handled (R : RaftState → RaftState → Type 0) : Type 0 where
  pub same : (s : RaftState) → R s s
  pub quiet : {s t : RaftState} → Quiet s t → R s t
  pub answered : (req : RequestVoteReq) (s : RaftState) → R s (RequestVote.answer req s).0
  pub counted :
      (rsp : RequestVoteRsp) (s : RaftState)
      → R s (RequestVote.step_down rsp.term (RequestVote.receive_vote rsp s))

module _ {R : RaftState → RaftState → Type 0} (handled : Handled R) where
  -- The law for a handler that always ends, by what it does to the Raft state.
  total_law :
      (w : World) {w' v : World}
      → R w.raft v.raft
      → ◌≡◌ {A = Result World} (ok v) (ok w')
      → R w.raft w'.raft
  total_law w h e = subst (λ (u : World). R w.raft u.raft) (ok-injective e) h

  append_req-law : IsLawful R AppendEntries.execute_req
  unfolding AppendEntries.execute_req
  append_req-law fd req w w' h =
      let ((s, rsp), answered, e) = >>=-eq-ok (AppendEntries.answer req w.raft) _ h in
      total_law w (handled.quiet (append_req-Quiet req w.raft s rsp answered)) e

  vote_req-law : IsLawful R (λ fd req w. ok (RequestVote.execute_req fd req w))
  unfolding RequestVote.execute_req
  vote_req-law fd req w w' h = total_law w (handled.answered req w.raft) h

  vote_rsp-law : IsLawful R (λ fd rsp w. ok (RequestVote.execute_rsp fd rsp w))
  unfolding RequestVote.execute_rsp
  vote_rsp-law fd rsp w w' h = total_law w (handled.counted rsp w.raft) h

  datastore-law : IsLawful R Print.print_datastore
  unfolding Print.print_datastore
  datastore-law fd req w w' h = ground (arith, handled.same w.raft)

  balance-law : IsLawful R (λ fd req w. ok (Print.print_balance fd req w))
  unfolding Print.print_balance
  balance-law fd req w w' h = total_law w (handled.same w.raft) h

  pub all_laws : (fmt : Fmt) (json : Json) → LawfulExecutors R (all_executors fmt json)
  all_laws fmt json = record {
    vote_req = vote_req-law;
    vote_rsp = vote_rsp-law;
    append_req = append_req-law;
    append_rsp = λ fd rsp w w' h. handled.quiet (append_rsp-Quiet json fd rsp w w' h);
    intra = λ fd req w w' h. total_law w (handled.quiet (intra_shard-Quiet json fmt fd req w)) h;
    cross = λ fd req w w' h. total_law w (handled.quiet (cross_shard-Quiet json fmt fd req w)) h;
    balance = balance-law;
    datastore = datastore-law;
  }

Quiet-KeepsVote : {s t : RaftState} → Quiet s t → KeepsVote s t
Quiet-KeepsVote q = ground (arith, q)

answer-KeepsVote : (req : RequestVoteReq) (s : RaftState) → KeepsVote s (RequestVote.answer req s).0
unfolding RequestVote.answer
answer-KeepsVote req s = ground arith

counted-KeepsVote :
    (rsp : RequestVoteRsp) (s : RaftState)
    → KeepsVote s (RequestVote.step_down rsp.term (RequestVote.receive_vote rsp s))
unfolding RequestVote.step_down RequestVote.receive_vote RequestVote.count_vote
counted-KeepsVote rsp s = ground arith

-- The executors of the repository keep the laws of their interface: no handler that ends without
-- undefined behaviour makes the term go down, or changes a vote that was cast in the same term.
pub all_executors-Lawful :
    (fmt : Fmt) (json : Json) → LawfulExecutors KeepsVote (all_executors fmt json)
all_executors-Lawful = all_laws (record {
  same = KeepsVote-refl;
  quiet = Quiet-KeepsVote;
  answered = answer-KeepsVote;
  counted = counted-KeepsVote;
})

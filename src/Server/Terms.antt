-- ===== src/Server/Terms.antt =====
-- The term and the vote of a server over one round of its event loop, for any executors that keep
-- the laws of their interface.
use raft_2pc_database.Prelude.{ℤ, pos, ◌≡◌, sym, eq_of_parts, arith, ◌<ℤ◌, add_int, ok, ◌∙◌}
use raft_2pc_database.Aio.{Completion}
use raft_2pc_database.RaftState.{RaftState}
use raft_2pc_database.Executors.{Executors}
use raft_2pc_database.Server.Keeping.{Keeping, handle-Keeps}
use raft_2pc_database.Executors.Laws.{KeepsVote, KeepsVote-refl, LawfulExecutors}
use raft_2pc_database.Util.{Util}
use raft_2pc_database.Server.Defs.{AioServer}
use raft_2pc_database.Server.Broadcast.{become_candidate}
use raft_2pc_database.Server.EventLoop.{handle}

KeepsVote-trans : {a b c : RaftState} → KeepsVote a b → KeepsVote b c → KeepsVote a c
KeepsVote-trans {a} {b} {c} p q = record {
  term_up = ground (arith, p.term_up, q.term_up);
  vote_kept = λ same voted.
      let mid : b.current_term ≡ a.current_term =
        ground (arith, p.term_up, q.term_up, same, eq_of_parts b.current_term a.current_term) in
      let first = p.vote_kept mid voted in
      q.vote_kept (same ∙ sym mid) (λ e. voted (sym first ∙ e)) ∙ first;
}

vote_keeping : Keeping KeepsVote
vote_keeping = record {
  same = KeepsVote-refl;
  trans = KeepsVote-trans;
  beat = λ s z. ground arith;
  forget = λ s. ground arith;
}

become_candidate-KeepsVote :
    (id : ℤ) (s : RaftState)
    → s.current_term <ℤ add_int s.current_term (pos 1)
    → KeepsVote s (become_candidate id s)
unfolding become_candidate
become_candidate-KeepsVote id s up = ground (arith, up)

module _ (executors : Executors) (laws : LawfulExecutors KeepsVote executors) (util : Util) where
  -- For every completion that the event loop handles without an exit or undefined behaviour, the
  -- term of the server does not go down, and a vote that the server has cast is kept while its
  -- term stays the same. The executors are any that keep this law themselves, and the term has
  -- not reached the largest int.
  pub handle-KeepsVote :
      (socket : ℤ) (c : Completion) (server : AioServer) {t : AioServer}
      → server.world.raft.current_term <ℤ add_int server.world.raft.current_term (pos 1)
      → handle executors util socket c server ≡ ok t
      → KeepsVote server.world.raft t.world.raft
  handle-KeepsVote socket c server up h =
      handle-Keeps vote_keeping executors laws util socket c server
        (become_candidate-KeepsVote server.server_id server.world.raft up) h

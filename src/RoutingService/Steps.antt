-- ===== src/RoutingService/Steps.antt =====
-- What the handlers of the routing service (client/routingservice.py) do with one cross-shard
-- transaction, step by step.
use raft_2pc_database.Prelude.{
  ℕ, ℤ, pos, minus_one, ◌+ℤ◌, eq_ℤ, eq_ℤ_refl, List, ◌++◌, map, Bool, true, false, some, ◌≡◌, refl,
  ◌∙◌, arith, not,
}
use raft_2pc_database.Prelude.Table.{Table, lookup, insert, lookup-insert}
use raft_2pc_database.Message.{CrossShardPhaseType, CrossShardResultType, WrapperMessage}
use raft_2pc_database.RoutingService.Config.{Address, LocalConfig}
use raft_2pc_database.RoutingService.{
  Transfer, to_str, Reply, Call, RoutingService, Await, Rest, Task, Outcome, count_reply, call,
}
use raft_2pc_database.RoutingService.Redirect.{
  leader_address, all_servers, redirect, redirect_cross, broadcast, and_then, continue,
}
use raft_2pc_database.RoutingService.Handlers.{on_yes, on_refusal, on_await, answer_cross}

abbrev pub vote : CrossShardResultType → Transfer → Outcome
vote result t =
    Outcome.response (WrapperMessage.cross_shard_rsp (record { result = result; id = t.id }))

abbrev pub prepare : Transfer → Address → Call
prepare t a = Call.send a (to_str CrossShardPhaseType.prepare t)

abbrev pub to_all : CrossShardPhaseType → Transfer → List Address → List Call
to_all phase t servers = map (λ a. Call.send a (to_str phase t)) servers

abbrev pub wait : Await → Rest → Task
wait await rest = record { await = await; rest = rest }

abbrev pub calls : List Call → RoutingService → RoutingService
calls more s = record s { calls = s.calls ++ more }

pub lookup-count_reply : (id n : ℤ) (tb : Table ℤ) → lookup id (insert id n tb) ≡ some n
lookup-count_reply id n tb = lookup-insert id id n tb ∙ (rw (eq_ℤ_refl id) refl)

module _ (c : LocalConfig) (now : ℕ) (t : Transfer) where
  pub redirect_cross-known :
      (cluster_id : ℤ) (rest : Rest) (s : RoutingService) {a : Address}
      → leader_address c s cluster_id ≡ some a
      → redirect_cross c t cluster_id rest s
        ≡ (call (prepare t a) s, some (wait (Await.prepare_response t) rest))
  unfolding redirect_cross redirect
  redirect_cross-known cluster_id rest s e = rw (e, redirect_cross, redirect) refl

  pub broadcast-known :
      (phase : CrossShardPhaseType) (task : Task) (s : RoutingService) {servers : List Address}
      → all_servers c t ≡ some servers
      → broadcast c phase t task s ≡ (calls (to_all phase t servers) s, some task)
  unfolding broadcast
  broadcast-known phase task s e = rw (e, broadcast) refl

  pub on_yes-first :
      (rest : Rest) (s : RoutingService)
      → lookup t.id s.num_reply_for_2pc ≡ some (pos 0)
      → on_yes c now t t.id rest s ≡ continue c now rest (count_reply t.id (pos 1) s)
  unfolding on_yes ◌+ℤ◌
  on_yes-first rest s e = rw (e, on_yes) refl

  pub on_yes-second :
      (rest : Rest) (s : RoutingService) {servers : List Address}
      → lookup t.id s.num_reply_for_2pc ≡ some (pos 1)
      → all_servers c t ≡ some servers
      → on_yes c now t t.id rest s ≡ (
        calls (to_all CrossShardPhaseType.commit t servers) (count_reply t.id (pos 2) s),
        some (wait (Await.commit_broadcast t) rest),
      )
  unfolding on_yes ◌+ℤ◌
  on_yes-second rest s e known = rw (e, on_yes) (broadcast-known _ _ _ known)

  pub on_refusal-open :
      (n : ℕ) (timed_out : Bool) (rest : Rest) (s : RoutingService) {servers : List Address}
      → lookup t.id s.num_reply_for_2pc ≡ some (pos n)
      → all_servers c t ≡ some servers
      → on_refusal c now t t.id timed_out rest s ≡ (
        calls (to_all CrossShardPhaseType.abort t servers) s,
        some (wait (Await.abort_broadcast t t.id timed_out) rest),
      )
  unfolding on_refusal
  on_refusal-open n timed_out rest s e known =
      let not_settled : not (eq_ℤ (pos n) minus_one) ≡ true = ground arith in
      rw (e, on_refusal, not_settled) (broadcast-known _ _ _ known)

  pub on_refusal-settled :
      (rest : Rest) (s : RoutingService)
      → lookup t.id s.num_reply_for_2pc ≡ some minus_one
      → on_refusal c now t t.id false rest s ≡ continue c now rest (count_reply t.id minus_one s)
  unfolding on_refusal
  on_refusal-settled rest s e = rw (e, on_refusal) refl

  pub on_await-commit :
      (rest : Rest) (s : RoutingService) {writer : ℕ}
      → lookup t.id s.conn_for_cross ≡ some writer
      → on_await c now rest s (Await.commit_broadcast t) Outcome.ended
        ≡ continue c now rest (call (Call.answer writer Reply.succeed) s)
  unfolding on_await answer_cross and_then
  on_await-commit rest s e = rw (e, on_await, answer_cross) refl

  pub on_await-abort :
      (rest : Rest) (s : RoutingService) {writer : ℕ}
      → lookup t.id s.conn_for_cross ≡ some writer
      → on_await c now rest s (Await.abort_broadcast t t.id false) Outcome.ended
        ≡ continue c now rest
            (count_reply t.id minus_one (call (Call.answer writer Reply.aborted) s))
  unfolding on_await answer_cross and_then
  on_await-abort rest s e = rw (e, on_await, answer_cross) refl

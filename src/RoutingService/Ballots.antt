-- ===== src/RoutingService/Ballots.antt =====
-- How the coroutines of the routing service (client/routingservice.py) count the YES answers to
-- PREPARE requests.
use raft_2pc_database.Prelude.{
  ℕ, suc, ◌+◌, ◌≤◌, ℤ, pos, negsuc, ◌+ℤ◌, eq_ℤ, eq_ℤ_iff, eq_ℤ_refl, List, [], ◌∷◌, All-weaken,
  Bool, true, false, Bool-cases, some, Option-cases, inl, inr, ◌≡◌, refl, arith, if◌then◌else◌,
  get_elem?, ap, ◌∙◌,
}
use raft_2pc_database.Prelude.Table.{lookup}
use raft_2pc_database.Message.{CrossShardPhaseType, CrossShardResultType, WrapperMessage}
use raft_2pc_database.RoutingService.Config.{LocalConfig}
use raft_2pc_database.RoutingService.{
  Transfer, Reply, Call, RoutingService, Await, Rest, Task, Outcome, Ran, call,
}
use raft_2pc_database.RoutingService.Redirect.{and_then, continue}
use raft_2pc_database.RoutingService.Handlers.{on_yes, on_refusal, on_vote, on_await, answer_cross}
use raft_2pc_database.RoutingService.Schedule.{System, Event, step}
use raft_2pc_database.RoutingService.Counted.{
  IsBacked, Counted, call-Counted, count_reply-Counted, minus_one-Counted, broadcast-Counted,
  refuse-Counted, continue-Counted,
}

-- The YES answers for a transaction that an event brings, and that all events bring.
abbrev pub yes_of : ℤ → Outcome → ℕ
yes_of id (Outcome.response (WrapperMessage.cross_shard_rsp rsp)) = elim rsp.result [
  | CrossShardResultType.yes_vote ↦ if eq_ℤ id rsp.id then 1 else 0
  | _ ↦ 0
]
yes_of id _ = 0

abbrev pub yes_in : ℤ → Event → ℕ
yes_in id (Event.come_back n outcome) = yes_of id outcome
yes_in id _ = 0

unfoldable pub yes_votes : ℤ → List (ℕ × Event) → ℕ
yes_votes id [] = 0
yes_votes id ((now, event) ∷ events) = yes_in id event + yes_votes id events

-- A response to a PREPARE has the id of its request.
abbrev pub AnswersTask : Outcome → Task → Type 0
AnswersTask (Outcome.response (WrapperMessage.cross_shard_rsp rsp)) task = elim task.await [
  | Await.prepare_response t ↦ rsp.id ≡ t.id
  | _ ↦ Unit
]
AnswersTask _ task = Unit

abbrev pub Answers : Event → System → Type 0
Answers (Event.come_back n outcome) sys =
    (task : Task) → get_elem? sys.tasks n ≡ some task → AnswersTask outcome task
Answers _ sys = Unit

module _ (c : LocalConfig) where
  -- Every response is to the request that its coroutine has sent.
  unfoldable pub AllAnswer : List (ℕ × Event) → System → Type 0
  AllAnswer [] sys = Unit
  AllAnswer ((now, event) ∷ events) sys =
      Answers event sys × AllAnswer events (step c now event sys)

IsBacked-le : (m n : ℤ → ℕ) → ((id : ℤ) → m id ≤ n id) → (a : Call) → IsBacked m a → IsBacked n a
IsBacked-le m n le (Call.send a (WrapperMessage.cross_shard_req req)) h =
    λ e. omega (arith, h e, le req.id)
IsBacked-le m n le _ h = tt

pub Counted-le :
    (m n : ℤ → ℕ) (s : RoutingService) → ((id : ℤ) → m id ≤ n id) → Counted m s → Counted n s
Counted-le m n s le h = record {
  replies = λ id k e. omega (arith, h.replies id k e, le id);
  backed = All-weaken (IsBacked m) (IsBacked n) (IsBacked-le m n le) s.calls h.backed;
}

succ_bound : (n : ℤ) (k b : ℕ) → ((m : ℕ) → n ≡ pos m → suc m ≤ b) → n +ℤ pos 1 ≡ pos k → k ≤ b
unfolding ◌+ℤ◌
succ_bound (pos m) k b h e = ground (arith, h m refl)
succ_bound (negsuc m) k b h e = ground arith

module _ (c : LocalConfig) (votes : ℤ → ℕ) where
  on_refusal-Counted :
      (now : ℕ) (t : Transfer) (id : ℤ) (timed_out : Bool) (rest : Rest) (s : RoutingService)
      → Counted votes s
      → Counted votes (on_refusal c now t id timed_out rest s).0
  unfolding on_refusal
  on_refusal-Counted now t id timed_out rest s h =
      let settled = minus_one-Counted votes id s h in
      ground (
        arith,
        h,
        settled,
        refuse-Counted votes c t id timed_out rest s h,
        continue-Counted votes c now rest _ settled,
      )

  -- A YES answer counts before the handler sees it.
  on_yes-Counted :
      (before : ℤ → ℕ) (now : ℕ) (t : Transfer) (rest : Rest) (s : RoutingService)
      → ((id : ℤ) → before id ≤ votes id)
      → suc (before t.id) ≤ votes t.id
      → Counted before s
      → Counted votes (on_yes c now t t.id rest s).0
  unfolding on_yes
  on_yes-Counted before now t rest s le one_more h =
      elim (Option-cases (lookup t.id s.num_reply_for_2pc)) [
        | inl missing ↦ rw (missing, on_yes) (Counted-le before votes s le h)
        | inr (n, found) ↦
            let bound : (k : ℕ) → n +ℤ pos 1 ≡ pos k → k ≤ votes t.id = λ k.
              succ_bound n k _
                (λ m e. omega (arith, h.replies t.id m (found ∙ ap some e), one_more)) in
            let counted =
              count_reply-Counted votes t.id (n +ℤ pos 1) s bound
                (Counted-le before votes s le h) in
            elim (Bool-cases (eq_ℤ (n +ℤ pos 1) (pos 2))) [
              | inl two ↦
                  rw (found, two, on_yes)
                    (broadcast-Counted votes c CrossShardPhaseType.commit t _ _
                      (λ _. bound 2 ((eq_ℤ_iff _ _).0 two)) counted)
              | inr less ↦ rw (found, less, on_yes) (continue-Counted votes c now rest _ counted)
            ]
      ]

  abbrev vote : CrossShardResultType → ℤ → WrapperMessage
  vote result id = WrapperMessage.cross_shard_rsp (record { result = result; id = id })

  vote-Counted :
      (before : ℤ → ℕ) (now : ℕ) (t : Transfer) (rest : Rest) (result : CrossShardResultType)
      (id : ℤ) (s : RoutingService)
      → ((j : ℤ) → before j + yes_of j (Outcome.response (vote result id)) ≤ votes j)
      → id ≡ t.id
      → Counted before s
      → Counted votes (on_vote c now t rest (vote result id) s).0
  unfolding on_vote
  vote-Counted before now t rest CrossShardResultType.yes_vote id s le same h = rw same (
      on_yes-Counted before now t rest s (λ j. ground (arith, le j))
        (ground (arith, le t.id, same, eq_ℤ_refl t.id)) h)
  vote-Counted before now t rest CrossShardResultType.no_vote id s le same h =
      on_refusal-Counted now t id false rest s
        (Counted-le before votes s (λ j. omega (arith, le j)) h)
  vote-Counted before now t rest CrossShardResultType.ack id s le same h =
      continue-Counted votes c now rest s (Counted-le before votes s (λ j. omega (arith, le j)) h)

  answered-Counted :
      (now : ℕ) (reply : Reply) (writer : ℕ) (rest : Rest) (s : RoutingService)
      → Counted votes s
      → Counted votes (continue c now rest (call (Call.answer writer reply) s)).0
  answered-Counted now reply writer rest s h =
      continue-Counted votes c now rest _ (call-Counted votes _ s tt h)

  answer_cross-Counted :
      (id : ℤ) (reply : Reply) (next : RoutingService → Ran) (s : RoutingService)
      → ((t : RoutingService) → Counted votes t → Counted votes (next t).0)
      → Counted votes s
      → Counted votes (and_then (answer_cross id reply s) next s).0
  unfolding answer_cross and_then
  answer_cross-Counted id reply next s later h = elim (Option-cases (lookup id s.conn_for_cross)) [
    | inl missing ↦ rw (missing, answer_cross) h
    | inr (writer, found) ↦
        rw (found, answer_cross) (later _ (call-Counted votes (Call.answer writer reply) s tt h))
  ]

  pub on_await-Counted :
      (before : ℤ → ℕ) (now : ℕ) (rest : Rest) (s : RoutingService) (await : Await)
      (outcome : Outcome)
      → ((j : ℤ) → before j + yes_of j outcome ≤ votes j)
      → AnswersTask outcome (record { await = await; rest = rest })
      → Counted before s
      → Counted votes s
      → Counted votes (on_await c now rest s await outcome).0
  unfolding on_await on_vote
  on_await-Counted before now rest s (Await.intra_response req writer) (Outcome.response message) le
        same old h =
      answered-Counted now (Reply.forwarded message) writer rest s h
  on_await-Counted before now rest s (Await.queued_response req) (Outcome.response message) le same
        old h =
      elim (Option-cases (lookup req.id s.conn_for_intra)) [
        | inl missing ↦ rw (missing, on_await) h
        | inr (writer, found) ↦
            rw (found, on_await) (answered-Counted now (Reply.forwarded message) writer rest s h)
      ]
  on_await-Counted before now rest s (Await.prepare_response t)
        (Outcome.response (WrapperMessage.cross_shard_rsp rsp)) le same old h =
      vote-Counted before now t rest rsp.result rsp.id s le same old
  on_await-Counted before now rest s (Await.prepare_response t) Outcome.timeout le same old h =
      on_refusal-Counted now t t.id true rest s h
  on_await-Counted before now rest s (Await.commit_broadcast t) Outcome.ended le same old h =
      answer_cross-Counted t.id Reply.succeed _ s (λ s'. continue-Counted votes c now rest s') h
  on_await-Counted before now rest s (Await.abort_broadcast t id timed_out) Outcome.ended le same
        old h =
      answer_cross-Counted t.id Reply.aborted _ s
        (λ s' h'.
          let settled = minus_one-Counted votes id s' h' in
          ground (arith, settled, continue-Counted votes c now rest _ settled))
        h
  on_await-Counted before now rest s _ _ le same old h = h

-- ===== src/RoutingService/Counted.antt =====
-- The YES answers that the routing service (client/routingservice.py) counts, and its COMMITs.
use raft_2pc_database.Prelude.{
  ℕ, ◌≤◌, ℤ, pos, minus_one, eq_ℤ_iff, List, [], ◌∷◌, ◌++◌, map, All, All-append, Bool, true, false,
  Option, none, some, Option-cases, inl, inr, ◌≡◌, refl, arith, if◌then◌else◌,
}
use raft_2pc_database.Prelude.Table.{lookup, lookup-insert}
use raft_2pc_database.Message.{CrossShardPhaseType, WrapperMessage}
use raft_2pc_database.RoutingService.Config.{item, Address, LocalConfig}
use raft_2pc_database.RoutingService.{
  Transfer, to_str, Request, Queued, Call, RoutingService, Rest, Task, Ran, call, count_reply,
}
use raft_2pc_database.RoutingService.Redirect.{
  leader_address, all_servers, enqueue, and_then, redirect, redirect_intra, redirect_cross,
  broadcast, run_pending, refuse, remove_request, expire, continue,
}

-- A call that sends no COMMIT, or one of a transaction with two YES answers.
abbrev pub IsBacked : (ℤ → ℕ) → Call → Type 0
IsBacked votes (Call.send a (WrapperMessage.cross_shard_req req)) =
    req.phase ≡ CrossShardPhaseType.commit → 2 ≤ votes req.id
IsBacked votes _ = Unit

pub record Counted (votes : ℤ → ℕ) (s : RoutingService) : Type 0 where
  pub replies : (id : ℤ) (k : ℕ) → lookup id s.num_reply_for_2pc ≡ some (pos k) → k ≤ votes id
  pub backed : All (IsBacked votes) s.calls

module _ (votes : ℤ → ℕ) where
  to_str-IsBacked :
      (a : Address) (phase : CrossShardPhaseType) (t : Transfer)
      → (phase ≡ CrossShardPhaseType.commit → 2 ≤ votes t.id)
      → IsBacked votes (Call.send a (to_str phase t))
  unfolding to_str
  to_str-IsBacked a phase t h = h

  pub call-Counted :
      (a : Call) (s : RoutingService)
      → IsBacked votes a
      → Counted votes s
      → Counted votes (call a s)
  call-Counted a s p h = record {
    replies = h.replies;
    backed = All-append (IsBacked votes) s.calls (a ∷ []) h.backed (p, tt);
  }

  pub count_reply-Counted :
      (id n : ℤ) (s : RoutingService)
      → ((k : ℕ) → n ≡ pos k → k ≤ votes id)
      → Counted votes s
      → Counted votes (count_reply id n s)
  count_reply-Counted id n s bound h = record {
    replies = λ j k found.
        ground
          (arith, lookup-insert j id n s.num_reply_for_2pc, eq_ℤ_iff j id, bound k, h.replies j k);
    backed = h.backed;
  }

  pub minus_one-Counted :
      (id : ℤ) (s : RoutingService) → Counted votes s → Counted votes (count_reply id minus_one s)
  minus_one-Counted id s = count_reply-Counted id minus_one s (λ k e. ground arith)

  pub and_then-Counted {ℓ} :
      {A : Type ℓ} (o : Option A) (next : A → Ran) (s : RoutingService)
      → Counted votes s
      → ((a : A) → o ≡ some a → Counted votes (next a).0)
      → Counted votes (and_then o next s).0
  unfolding and_then
  and_then-Counted none next s h k = h
  and_then-Counted (some a) next s h k = k a refl

  pub same-Counted :
      (s t : RoutingService)
      → t.num_reply_for_2pc ≡ s.num_reply_for_2pc
      → t.calls ≡ s.calls
      → Counted votes s
      → Counted votes t
  same-Counted s t replies calls h = record {
    replies = rw replies h.replies;
    backed = rw calls h.backed;
  }

  pub if-Counted :
      (b : Bool) (x y : Ran)
      → Counted votes x.0
      → Counted votes y.0
      → Counted votes (if b then x else y).0
  if-Counted true x y h k = h
  if-Counted false x y h k = k

  pub enqueue-Counted :
      (cluster_id : ℤ) (request : Request) (now : ℕ) (s t : RoutingService)
      → Counted votes s
      → enqueue cluster_id request now s ≡ some t
      → Counted votes t
  unfolding enqueue
  enqueue-Counted cluster_id request now s t h e =
      elim (Option-cases (item s.transaction_request cluster_id)) [
        | inl missing ↦ absurd (let e = rw (missing, enqueue) at e in cc)
        | inr (queue, found) ↦ let e = rw (found, enqueue) at e in ground arith
      ]

  module _ (c : LocalConfig) where
    pub redirect-Counted :
        (cluster_id : ℤ) (message : WrapperMessage) (task : Task) (s : RoutingService)
        → ((a : Address) → IsBacked votes (Call.send a message))
        → Counted votes s
        → Counted votes (redirect c cluster_id message task s).0
    unfolding redirect
    redirect-Counted cluster_id message task s p h =
        elim (Option-cases (leader_address c s cluster_id)) [
          | inl missing ↦ rw (missing, redirect) h
          | inr (a, found) ↦ rw (found, redirect) (call-Counted (Call.send a message) s (p a) h)
        ]

    pub redirect_cross-Counted :
        (t : Transfer) (cluster_id : ℤ) (rest : Rest) (s : RoutingService)
        → Counted votes s
        → Counted votes (redirect_cross c t cluster_id rest s).0
    unfolding redirect_cross
    redirect_cross-Counted t cluster_id rest s h =
        redirect-Counted cluster_id _ _ s
          (λ a. to_str-IsBacked a CrossShardPhaseType.prepare t (λ e. absurd (cc))) h

    send-IsBacked :
        (phase : CrossShardPhaseType) (t : Transfer) (servers : List Address)
        → (phase ≡ CrossShardPhaseType.commit → 2 ≤ votes t.id)
        → All (IsBacked votes) (map (λ a. Call.send a (to_str phase t)) servers)
    send-IsBacked phase t [] h = tt
    send-IsBacked phase t (a ∷ servers) h =
        (to_str-IsBacked a phase t h, send-IsBacked phase t servers h)

    pub broadcast-Counted :
        (phase : CrossShardPhaseType) (t : Transfer) (task : Task) (s : RoutingService)
        → (phase ≡ CrossShardPhaseType.commit → 2 ≤ votes t.id)
        → Counted votes s
        → Counted votes (broadcast c phase t task s).0
    unfolding broadcast
    broadcast-Counted phase t task s p h = elim (Option-cases (all_servers c t)) [
      | inl missing ↦ rw (missing, broadcast) h
      | inr (servers, found) ↦
          rw (found, broadcast)
            (record {
              replies = h.replies;
              backed =
                  All-append (IsBacked votes) s.calls _ h.backed (send-IsBacked phase t servers p);
            })
    ]

    pub refuse-Counted :
        (t : Transfer) (id : ℤ) (timed_out : Bool) (rest : Rest) (s : RoutingService)
        → Counted votes s
        → Counted votes (refuse c t id timed_out rest s).0
    refuse-Counted t id timed_out rest s =
        broadcast-Counted CrossShardPhaseType.abort t _ s (λ e. absurd (cc))

    pub run_pending-Counted :
        (cluster_id : ℤ) (writer : ℕ) (entries : List Queued) (s : RoutingService)
        → Counted votes s
        → Counted votes (run_pending c cluster_id writer entries s).0
    unfolding run_pending redirect_intra redirect_cross
    run_pending-Counted cluster_id writer [] s h =
        call-Counted (Call.close writer) _ tt (record { replies = h.replies; backed = h.backed })
    run_pending-Counted cluster_id writer (entry ∷ entries) s h =
        elim entry.request
          as (λ r.
            Counted votes
              (run_pending c cluster_id writer (record entry { request = r } ∷ entries) s).0) [
                | Request.intra req ↦
                    redirect-Counted req.cluster_id (WrapperMessage.intra_shard_req req) _ s
                      (λ a. tt) h
                | Request.cross t ↦ redirect_cross-Counted t cluster_id _ s h
              ]

    remove_request-Counted :
        (request : Request) (rest : Rest) (next : RoutingService → Ran) (s : RoutingService)
        → ((t : RoutingService) → Counted votes t → Counted votes (next t).0)
        → Counted votes s
        → Counted votes (remove_request c request rest next s).0
    unfolding remove_request
    remove_request-Counted (Request.intra req) rest next s later h = later s h
    remove_request-Counted (Request.cross t) rest next s later h =
        let given_up = later _ (minus_one-Counted t.id s h) in
        ground (arith, given_up, refuse-Counted t t.id false rest s h, h)

    pub expire-Counted :
        (now : ℕ) (cluster_id : ℤ) (entries kept : List Queued) (s : RoutingService)
        → Counted votes s
        → Counted votes (expire c now cluster_id entries kept s).0
    unfolding expire
    expire-Counted now cluster_id [] kept s h = record { replies = h.replies; backed = h.backed }
    expire-Counted now cluster_id (entry ∷ entries) kept s h =
        let next = expire-Counted now cluster_id entries in
        let rest = Rest.expire_loop cluster_id entries kept in
        let removed =
          remove_request-Counted entry.request rest (expire c now cluster_id entries kept) s
            (next kept) h in
        ground (arith, next (kept ++ (entry ∷ [])) s h, removed)

    pub continue-Counted :
        (now : ℕ) (rest : Rest) (s : RoutingService)
        → Counted votes s
        → Counted votes (continue c now rest s).0
    unfolding continue
    continue-Counted now Rest.finish s h = h
    continue-Counted now (Rest.to_receiver t true) s h =
        redirect_cross-Counted t t.receiver_cluster_id Rest.finish s h
    continue-Counted now (Rest.to_receiver t false) s h =
        and_then-Counted _ _ s h
          (λ s' e. enqueue-Counted t.receiver_cluster_id (Request.cross t) now s s' h e)
    continue-Counted now (Rest.pending_loop cluster_id writer entries) s h =
        run_pending-Counted cluster_id writer entries s h
    continue-Counted now (Rest.expire_loop cluster_id entries kept) s h =
        expire-Counted now cluster_id entries kept s h

-- ===== src/Server/Failure.antt =====
-- A server that pretends to fail (the messages Stop and Resume).
use raft_2pc_database.Prelude.{
  ℤ, pos, Bool, true, false, not, if◌then◌else◌, ◌&&◌, eq_ℤ, ltb_ℤ, ◌≡◌, refl, arith, List, [], ◌∷◌,
  All, Result, ok, Bool-cases, inl, inr,
}
use raft_2pc_database.Message.{WrapperMessage}
use raft_2pc_database.Executors.{Executors}
use raft_2pc_database.Aio.{AioEventType, AioData, Completion}
use raft_2pc_database.Util.{Util}
use raft_2pc_database.Server.Defs.{AioServer, term_timeout_ms}
use raft_2pc_database.Server.Process.{is_self, process}
use raft_2pc_database.Server.EventLoop.{
  on_timeout, on_write, on_read, on_event, handle, run_loop, minus_etime, is_timeout, add_timeout,
}

-- A Resume message for this server.
abbrev pub is_resume : WrapperMessage → AioServer → Bool
is_resume (WrapperMessage.resume t) server = is_self t.cluster_id t.server_id server
is_resume _ server = false

-- A completed read of a Resume message for this server.
abbrev pub wakes : Util → Completion → AioServer → Bool
wakes util Completion.wait_failed server = false
wakes util (Completion.completed res event) server = elim event.event_type [
  | AioEventType.event_read ↦ is_resume (util.parse_buf_to_msg event.buf res) server
  | _ ↦ false
]

-- The Raft state and the files are as before, and the server still pretends to fail.
pub record Silent (a b : AioServer) : Type 0 where
  pub same_raft : b.world.raft ≡ a.world.raft
  pub same_disk : b.world.disk ≡ a.world.disk
  pub same_cluster : b.cluster_id ≡ a.cluster_id
  pub same_server : b.server_id ≡ a.server_id
  pub failing : b.pretend_fail ≡ true

-- A piece of the server that gives a result, and a silent one.
abbrev GoesSilent : AioServer → Result AioServer → Type 0
GoesSilent server r = (t : AioServer) × (r ≡ ok t) × Silent server t

quiet_step :
    (server t : AioServer)
    → t.pretend_fail ≡ true
    → t.world.raft ≡ server.world.raft
    → t.world.disk ≡ server.world.disk
    → t.cluster_id ≡ server.cluster_id
    → t.server_id ≡ server.server_id
    → GoesSilent server (ok t)
quiet_step server t failing raft disk cluster id = (
  t,
  refl,
  record {
    same_raft = raft;
    same_disk = disk;
    same_cluster = cluster;
    same_server = id;
    failing = failing;
  },
)

Silent-refl : (server : AioServer) → server.pretend_fail ≡ true → Silent server server
Silent-refl server h = ground arith

on_timeout-failing :
    (server : AioServer)
    → server.pretend_fail ≡ true
    → on_timeout server ≡ ok (add_timeout term_timeout_ms server)
unfolding on_timeout
on_timeout-failing server h = ground arith

on_write-Silent :
    (event : AioData) (server : AioServer)
    → server.pretend_fail ≡ true
    → Silent server (on_write event server)
unfolding on_write
on_write-Silent event server h = ground arith

-- The control messages while the server fails.
abbrev controlled : WrapperMessage → AioServer → AioServer
controlled (WrapperMessage.exit t) server =
    if is_self t.cluster_id t.server_id server
    then record server { keep_running = false }
    else server
controlled _ server = server

module _ (executors : Executors) where
  process-controlled :
      (fd : ℤ) (msg : WrapperMessage) (server : AioServer)
      → server.pretend_fail ≡ true
      → is_resume msg server ≡ false
      → process executors fd msg server ≡ ok (controlled msg server)
  unfolding process
  process-controlled fd msg server h r = ground arith

  controlled-Silent :
      (msg : WrapperMessage) (server : AioServer)
      → server.pretend_fail ≡ true
      → Silent server (controlled msg server)
  controlled-Silent msg server h = ground arith

  module _ (util : Util) where
    on_event-Silent :
        (socket res : ℤ) (event : AioData) (server : AioServer) (ty : AioEventType)
        → event.event_type ≡ ty
        → server.pretend_fail ≡ true
        → wakes util (Completion.completed res event) server ≡ false
        → GoesSilent server (on_event executors util socket res event server)
    unfolding on_event on_timeout on_read on_write
    on_event-Silent socket res event server AioEventType.event_timeout e h w =
        rw (e, on_timeout-failing server h) (quiet_step server _ h refl refl refl refl)
    on_event-Silent socket res event server AioEventType.event_accept e h w =
        rw e (quiet_step server _ h refl refl refl refl)
    on_event-Silent socket res event server AioEventType.event_connect e h w =
        rw e (quiet_step server _ h refl refl refl refl)
    on_event-Silent socket res event server AioEventType.event_read e h w =
        let msg = util.parse_buf_to_msg event.buf res in
        rw e (
          controlled msg server,
          process-controlled event.fd msg server h (rw e at w),
          controlled-Silent msg server h,
        )
    on_event-Silent socket res event server AioEventType.event_write e h w =
        rw e (on_write event server, refl, on_write-Silent event server h)

    handle-Silent :
        (socket : ℤ) (c : Completion) (server : AioServer)
        → server.pretend_fail ≡ true
        → wakes util c server ≡ false
        → GoesSilent server (handle executors util socket c server)
    unfolding handle
    handle-Silent socket Completion.wait_failed server h w =
        quiet_step server server h refl refl refl refl
    handle-Silent socket (Completion.completed res event) server h w =
        elim (Bool-cases (not (eq_ℤ res minus_etime) && ltb_ℤ res (pos 0))) [
          | inl failed ↦ rw failed (quiet_step server server h refl refl refl refl)
          | inr done ↦
              elim (Bool-cases (eq_ℤ res minus_etime && not (is_timeout event.event_type))) [
                | inl late ↦ rw (done, late) (quiet_step server server h refl refl refl refl)
                | inr timely ↦
                    rw (done, timely)
                      (on_event-Silent socket res event server event.event_type refl h w)
              ]
        ]

    Silent-trans : {a b c : AioServer} → Silent a b → Silent b c → Silent a c
    Silent-trans p q = ground arith

    wakes_same :
        (c : Completion) (a b : AioServer)
        → Silent a b
        → wakes util c a ≡ false
        → wakes util c b ≡ false
    wakes_same c a b s h = ground arith

    All-wakes_same :
        (cs : List Completion) (a b : AioServer)
        → Silent a b
        → All (λ c. wakes util c a ≡ false) cs
        → All (λ c. wakes util c b ≡ false) cs
    All-wakes_same [] a b s h = tt
    All-wakes_same (c ∷ cs) a b s h = (wakes_same c a b s h.0, All-wakes_same cs a b s h.1)

    -- While a server pretends to fail, and none of the completions is the read of a Resume
    -- message for it, the event loop takes all completions without an exit or undefined
    -- behaviour, the Raft state and the data shard files stay as they are, and the server still
    -- pretends to fail.
    pub run_loop-Silent :
        (socket : ℤ) (completions : List Completion) (server : AioServer)
        → server.pretend_fail ≡ true
        → All (λ c. wakes util c server ≡ false) completions
        → (t : AioServer) × (run_loop executors util socket completions server ≡ ok t)
          × Silent server t
    unfolding run_loop
    run_loop-Silent socket [] server h asleep = quiet_step server server h refl refl refl refl
    run_loop-Silent socket (c ∷ cs) server h asleep = elim (Bool-cases server.keep_running) [
      | inl on ↦
          let (t, e, s) = handle-Silent socket c server h asleep.0 in
          let (u, e', s') =
            run_loop-Silent socket cs t s.failing (All-wakes_same cs server t s asleep.1) in
          (u, ground (arith, on, e, e'), Silent-trans s s')
      | inr off ↦ (server, ground (arith, off), Silent-refl server h)
    ]

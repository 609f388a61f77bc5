-- ===== src/Board/Commands.antt =====
-- The library's calls as moves on a board.
use libco_lite.Base.{
  ℕ, ◌-◌, ◌≡◌, refl, ap, ◌∙◌, ◌⊎◌, inl, inr, ℤ, true, false, Option, none, some, List, [], ◌∷◌,
  arith, ◌==◌, ltb, if◌then◌else◌, is_some, update, Option-cases, Bool-cases,
}
use libco_lite.Platform.{Platform, has, EpollEvent}
use libco_lite.Thread.{
  max_fd, running, wait, exit, is_exit, epollout, Call, accepts, reads, writes, Frame, sleeping,
  joining, polling, waiting, exiting, Task, Table, ThreadEnv, World, Run, pure, deref, modify,
  set_env,
}
use libco_lite.Thread.Returns.{Ends, Ends-ok, Ends-fault, Ends-exited, Ends-bind}
use libco_lite.Thread.Valid.{IsValid, put-IsValid}
use libco_lite.Sched.{co_sleep}
use libco_lite.Sched.Wake.{reading}
use libco_lite.Sched.Sleep.{slept, asleep, co_sleep-cases}
use libco_lite.Coroutine.{goes, co_create, co_join}
use libco_lite.Coroutine.Create.{Created, full, no_memory, made, born, co_create-Created}
use libco_lite.EventLoop.{dispatch, dispatch_all, co_eventloop}
use libco_lite.EventLoop.Dispatch.{
  Dispatched, nobody, dangling, served, notified, matches, dispatch-Dispatched,
}
use libco_lite.System.Linked.{IsLive}
use libco_lite.System.Events.{dispatch-IsLive}
use libco_lite.Board.{
  Board, entry, shown, view, Writes, Quiet, spawns, reaps, marks, serves, Quiets, and_then, Refines,
}
use libco_lite.Board.Refine.{schedule-Refines}

shown-update :
    (task : Table) (i j : ℕ) (o : Option Task)
    → shown (update task i o j) ≡ (if i == j then shown o else shown (task j))
shown-update task i j o = ground arith

shown-none : (o : Option Task) → is_some o ≡ false → shown o ≡ none
shown-none o h = ground arith

module _ {p : Platform} where
  -- One slot of the table is written, and nothing else that a board shows.
  table-Writes :
      (w v : World p) (i : ℕ) (o : Option Task)
      → v.current ≡ w.current
      → v.block_queue ≡ w.block_queue
      → v.task ≡ update w.task i o
      → Writes (view w) (view v) i (shown o)
  table-Writes w v i o c q t = record {
    same_current = c;
    same_queues = λ fd. ap (λ x. p.contents x fd) q;
    written = λ j. ap (λ (x : Table). shown (x j)) t ∙ shown-update w.task i j o;
  }

  -- The current coroutine writes its own block.
  pub put-Quiet :
      (w v : World p) (a b : Task)
      → w.task w.current ≡ some a
      → v.env ≡ record (w.env) { task = update w.task w.current (some b) }
      → Quiet (view w) (view v)
  put-Quiet w v a b here e = marks (entry a) (entry b) (ap shown here) (
      table-Writes w v w.current (some b) (ap (λ (x : ThreadEnv p). x.current) e)
        (ap (λ (x : ThreadEnv p). x.block_queue) e) (ap (λ (x : ThreadEnv p). x.task) e))

  pub co_create-Quiets :
      (b : Board) (co_fn arg : ℕ) (w : World p)
      → Quiets b (view w)
      → IsValid w.env
      → Ends (λ _ v. Quiets b (view v)) (co_create co_fn arg w)
  co_create-Quiets b co_fn arg w q valid = by_outcome (co_create-Created w co_fn arg valid)
    where
      by_outcome :
          {r : Run p (ℤ × Option ℕ)} → Created w co_fn arg r → Ends (λ _ v. Quiets b (view v)) r
      by_outcome (full all e) = rw e (Ends-ok (λ _ v. Quiets b (view v)) q)
      by_outcome (no_memory c e) = rw e (Ends-fault (λ _ v. Quiets b (view v)))
      by_outcome (made id v h free before e env_eq valid) = rw e (
          Ends-ok (λ _ u. Quiets b (view u))
            (and_then q (
              spawns id (entry (born id co_fn arg)) (shown-none (w.task id) free) refl (
                table-Writes w v id (some (born id co_fn arg))
                  (ap (λ (x : ThreadEnv p). x.current) env_eq)
                  (ap (λ (x : ThreadEnv p). x.block_queue) env_eq)
                  (ap (λ (x : ThreadEnv p). x.task) env_eq)))))

  pub co_join-Refines :
      (b : Board) (rounds cid : ℕ) (w : World p)
      → Quiets b (view w)
      → IsValid w.env
      → Ends (λ c v. Refines c b (view v)) (co_join rounds cid w)
  unfolding co_join
  co_join-Refines b rounds cid w q valid = elim (Option-cases (w.task cid)) [
    | inl o ↦ rw (o, deref) (Ends-fault (λ c v. Refines c b (view v)))
    | inr (t, o) ↦
        rw (o, deref)
          (elim (Bool-cases (is_exit t.status)) [
            | inl x ↦ rw x (
                Ends-ok (λ c v. Refines c b (view v))
                  (and_then q (
                    reaps cid (entry t) (ap shown o) (ground arith) (
                      table-Writes w
                        (set_env w (record (w.env) {
                          task = update w.task cid none;
                          task_count = w.task_count - 1;
                        }))
                        cid none refl refl refl))))
            | inr x ↦ rw x (schedule-Refines b rounds w (joining cid) q valid)
          ])
  ]

  pub co_sleep-Refines :
      (b : Board) (rounds seconds : ℕ) (w : World p) (t : Task)
      → Quiets b (view w)
      → IsValid w.env
      → w.task w.current ≡ some t
      → Ends
          (λ c v. Refines c b (view v))
          (libco_lite.Thread.and_then (co_sleep rounds seconds w) (λ f. pure (goes f)))
  co_sleep-Refines b rounds seconds w t q valid here =
      elim (co_sleep-cases rounds seconds w t here) [
        | inl over ↦ rw over (Ends-fault (λ c v. Refines c b (view v)))
        | inr e ↦ rw e (
            schedule-Refines b rounds (asleep seconds t w) sleeping
              (and_then q (
                put-Quiet w (asleep seconds t w) t (slept (reading p w.kernel) seconds t) here
                  refl))
              (put-IsValid w.env w.current t (slept (reading p w.kernel) seconds t) w.block_queue
                valid here refl))
      ]

  -- An event takes the first off a queue.
  pub dispatch-Quiets :
      (b : Board) (w : World p) (ev : EpollEvent)
      → Quiets b (view w)
      → IsLive w.env
      → Ends (λ _ v. Quiets b (view v)) (dispatch ev w)
  unfolding dispatch
  dispatch-Quiets b w ev q l = elim (Bool-cases (ltb ev.fd max_fd)) [
    | inr h ↦ rw h (Ends-fault (λ _ v. Quiets b (view v)))
    | inl h ↦ by_outcome (dispatch-Dispatched w ev (ground arith))
  ]
    where
      waited :
          (j : ℕ) (rest : List ℕ) (t : Task)
          → p.contents w.block_queue ev.fd ≡ j ∷ rest
          → w.task j ≡ some t
          → t.status ≡ wait
      waited j rest t e o =
          let on : has j (p.contents w.block_queue ev.fd) ≡ true = rw e (ground arith) in
          let (x, f, s) = l.linked.queued ev.fd j on in ground arith

      slots :
          (j : ℕ) (t : Task) (v : World p)
          → v.env ≡ record (w.env) {
            task = if matches ev t then update w.task j (some (notified ev t)) else w.task;
            block_queue = p.tailq_remove w.block_queue ev.fd j;
          }
          → ((k : ℕ) → shown (v.task k) ≡ shown (w.task k))
            ⊎ ((k : ℕ)
                → shown (v.task k)
                  ≡ (if j == k then shown (some (notified ev t)) else shown (w.task k)))
      slots j t v e = elim (Bool-cases (matches ev t)) [
        | inl m ↦ inr (λ k.
            ap (λ (x : ThreadEnv p). shown (x.task k)) e
            ∙ rw m (shown-update w.task j k (some (notified ev t))))
        | inr m ↦ inl (λ k. ap (λ (x : ThreadEnv p). shown (x.task k)) e ∙ rw m)
      ]

      by_outcome : {r : Run p (Unit {0})} → Dispatched w ev r → Ends (λ _ v. Quiets b (view v)) r
      by_outcome (nobody e f) = rw f (Ends-fault (λ _ v. Quiets b (view v)))
      by_outcome (dangling j rest e o f) = rw f (Ends-fault (λ _ v. Quiets b (view v)))
      by_outcome (served j rest t v e o f k env_eq out) = rw f (
          Ends-ok (λ _ v. Quiets b (view v))
            (and_then q (
              serves ev.fd j rest (entry t) e (ap shown o) (waited j rest t e o)
                (ap (λ (x : ThreadEnv p). x.current) env_eq) out (slots j t v env_eq))))

  -- All the events of one `epoll_wait`.
  pub dispatch_all-Quiets :
      (b : Board) (evs : List EpollEvent) (w : World p)
      → Quiets b (view w)
      → IsLive w.env
      → Ends (λ _ v. Quiets b (view v) × IsLive v.env) (dispatch_all evs w)
  unfolding dispatch_all
  dispatch_all-Quiets b [] w q l = Ends-ok (λ _ v. Quiets b (view v) × IsLive v.env) (q, l)
  dispatch_all-Quiets b (ev ∷ evs) w q l =
      Ends-bind (λ _ v. Quiets b (view v) × IsLive v.env) (λ _ v. Quiets b (view v) × IsLive v.env)
        (dispatch ev w) (λ _. dispatch_all evs)
        (λ u v e. (dispatch-Quiets b w ev q l u v e, dispatch-IsLive w ev l u v e))
        λ _ v (q', l'). dispatch_all-Quiets b evs v q' l'

  pub co_eventloop-Refines :
      (b : Board) (rounds : ℕ) (w : World p)
      → Quiets b (view w)
      → IsLive w.env
      → Ends (λ c v. Refines c b (view v)) (co_eventloop rounds w)
  unfolding co_eventloop
  co_eventloop-Refines b rounds w q l = elim (Option-cases (p.epoll_wait w.kernel w.epfd 1024).0) [
    | inl e ↦ rw (e, co_eventloop) (Ends-exited (λ c v. Refines c b (view v)) 1)
    | inr (evs, e) ↦
        rw (e, co_eventloop)
          (Ends-bind (λ _ v. Quiets b (view v) × IsLive v.env) (λ c v. Refines c b (view v))
            (dispatch_all evs (record w { kernel = (p.epoll_wait w.kernel w.epfd 1024).1 })) _
            (dispatch_all-Quiets b evs _ q l)
            λ _ v (q', l'). schedule-Refines b rounds v polling q' l'.linked.valid)
  ]

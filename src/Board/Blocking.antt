-- ===== src/Board/Blocking.antt =====
-- The blocking calls (src/cosyscall.c) as moves on a board.
use libco_lite.Base.{
  ℕ, ◌<◌, ◌≡◌, refl, ap, ◌∙◌, inl, inr, ℤ, is_negative, some, arith, ◌==◌, if◌then◌else◌, update,
  update_self, bit_and, Bool-cases,
}
use libco_lite.Platform.{Platform, ctl_mod}
use libco_lite.Thread.{
  max_fd, wait, Call, accepts, reads, writes, waiting, Task, Table, ThreadEnv, World, Run, pure,
  deref, modify, set_env, put_task,
}
use libco_lite.Thread.Returns.{Returns, returns, Ends, Ends-ok}
use libco_lite.Thread.Valid.{IsValid, put-IsValid}
use libco_lite.Coroutine.{returns_int}
use libco_lite.Syscall.{event_of, set_wait, proceed, wait_loop, add_queue, blocking}
use libco_lite.Syscall.Queue.{Added-IsValid}
use libco_lite.Syscall.Add.{Added-Fields, Added, add_queue-Added}
use libco_lite.System.Linked.{IsLive}
use libco_lite.System.Preserve.{put-IsLive}
use libco_lite.System.Safety.{cleared}
use libco_lite.Board.{Board, entry, shown, view, parks, Quiets, and_then, Refines}
use libco_lite.Board.Refine.{schedule-Refines}
use libco_lite.Board.Commands.{put-Quiet}

module _ {p : Platform} where
  proceed-Refines :
      (b : Board) (c : Call) (fd : ℕ) (w : World p) (t : Task)
      → Quiets b (view w)
      → w.task w.current ≡ some t
      → Ends (λ c v. Refines c b (view v)) (proceed c fd w)
  unfolding proceed
  proceed-Refines b accepts fd w t q o = Ends-ok (λ c v. Refines c b (view v)) q
  proceed-Refines b (reads len) fd w t q o = Ends-ok (λ c v. Refines c b (view v)) q
  proceed-Refines b (writes len) fd w t q o =
      let (ret, k) = p.epoll_ctl w.kernel w.epfd ctl_mod fd ((cleared fd t).events fd).mask in
      let q' =
        and_then q
          (put-Quiet w (put_task w w.current (some (cleared fd t))) t (cleared fd t) o refl) in
      rw (o, modify)
        (rw (update_self w.task w.current (some (cleared fd t)), deref)
          (elim (Bool-cases (is_negative ret)) [
            | inl n ↦ rw n (Ends-ok (λ c v. Refines c b (view v)) q')
            | inr n ↦ rw n (Ends-ok (λ c v. Refines c b (view v)) q')
          ]))

  pub wait_loop-Refines :
      (b : Board) (rounds : ℕ) (c : Call) (fd : ℕ) (w : World p) (t : Task)
      → Quiets b (view w)
      → IsValid w.env
      → w.task w.current ≡ some t
      → Ends (λ c v. Refines c b (view v)) (wait_loop rounds c fd w)
  unfolding wait_loop
  wait_loop-Refines b rounds c fd w t q valid o =
      rw (o, deref)
        (elim (Bool-cases (bit_and (t.revents fd) (event_of c) == 0)) [
          | inr r ↦ rw r (proceed-Refines b c fd w t q o)
          | inl r ↦
              let t' = record t { status = wait } in
              rw r (
                rw (o, modify)
                  (schedule-Refines b rounds (put_task w w.current (some t')) (waiting c fd)
                    (and_then q (put-Quiet w (put_task w w.current (some t')) t t' o refl))
                    (put-IsValid w.env w.current t t' w.block_queue valid o refl)))
        ])

  -- `add_queue` writes the current block and puts the coroutine on a queue.
  Added-Quiets :
      (b : Board) (w v : World p) (fd events : ℕ) (ret : ℤ)
      → Quiets b (view w)
      → IsLive w.env
      → Added w fd events ret v
      → Quiets b (view v)
  Added-Quiets b w v fd events ret q l a =
      let u = put_task w w.current (some a.after) in
      let q' = and_then q (put-Quiet w u a.before a.after a.here refl) in
      let slots = ap (λ (x : ThreadEnv p). x.task) a.env in
      let same = ap (λ (x : ThreadEnv p). x.current) a.env in
      elim (Bool-cases (is_negative ret)) [
        | inl n ↦ and_then q (put-Quiet w v a.before a.after a.here (a.env ∙ rw n))
        | inr n ↦ and_then q' (
            parks fd (entry a.after) (ap shown (update_self w.task w.current (some a.after)))
              (ground (arith, Added-Fields a)) l.off same
              (λ j. ap (λ (x : Table). shown (x j)) slots)
              (λ g.
                ap (λ (x : ThreadEnv p). p.contents x.block_queue g) a.env
                ∙ rw n (p.insert_lem w.block_queue fd w.current l.off g)))
      ]

  -- A blocking call behind `set_wait`.
  queued-Refines :
      (b : Board) (rounds : ℕ) (call : Call) (fd : ℕ) (w : World p) (t : Task)
      → Quiets b (view w)
      → IsLive w.env
      → fd < max_fd
      → w.task w.current ≡ some t
      → t.fds_idx < max_fd
      → Ends
          (λ c v. Refines c b (view v))
          (libco_lite.Thread.and_then
            (add_queue fd (event_of call) w)
            (λ ret. if is_negative ret then pure (returns_int ret) else wait_loop rounds call fd))
  queued-Refines b rounds call fd w t q l h here room =
      inside (add_queue-Added w fd (event_of call) t h here room)
    where
      inside :
          {r : Run p ℤ}
          → Returns (Added w fd (event_of call)) r
          → Ends
              (λ c v. Refines c b (view v))
              (libco_lite.Thread.and_then r (λ ret.
                if is_negative ret then pure (returns_int ret) else wait_loop rounds call fd))
      inside (returns {a = ret} {w = v} a) =
          let q' = Added-Quiets b w v fd (event_of call) ret q l a in
          let slots : v.task ≡ update w.task w.current (some a.after) =
            ap (λ (e : ThreadEnv p). e.task) a.env in
          let same : v.current ≡ w.current = ap (λ (e : ThreadEnv p). e.current) a.env in
          let now : v.task v.current ≡ some a.after =
            rw same (
              ap (λ (f : Table). f w.current) slots
              ∙ update_self w.task w.current (some a.after)) in
          elim (Bool-cases (is_negative ret)) [
            | inl n ↦ rw n (Ends-ok (λ c v. Refines c b (view v)) q')
            | inr n ↦ rw n (
                wait_loop-Refines b rounds call fd v a.after q' (Added-IsValid l.linked.valid a)
                  now)
          ]

  -- The same behind the status that `co_read` and `co_write` set first.
  set_wait-Refines :
      (b : Board) (rounds : ℕ) (call : Call) (fd : ℕ) (w : World p) (t : Task)
      → Quiets b (view w)
      → IsLive w.env
      → fd < max_fd
      → w.task w.current ≡ some t
      → t.fds_idx < max_fd
      → Ends
          (λ c v. Refines c b (view v))
          (libco_lite.Thread.and_then
            (add_queue fd
              (event_of call)
              (put_task w w.current (some (record t { status = wait }))))
            (λ ret. if is_negative ret then pure (returns_int ret) else wait_loop rounds call fd))
  set_wait-Refines b rounds call fd w t q l h here room =
      let t' = record t { status = wait } in
      let u = put_task w w.current (some t') in
      queued-Refines b rounds call fd u t' (and_then q (put-Quiet w u t t' here refl))
        (put-IsLive w.env t t' l here refl refl (λ x. cc)) h
        (update_self w.task w.current (some t')) room

  pub blocking-Refines :
      (b : Board) (rounds : ℕ) (call : Call) (fd : ℕ) (w : World p) (t : Task)
      → Quiets b (view w)
      → IsLive w.env
      → fd < max_fd
      → w.task w.current ≡ some t
      → t.fds_idx < max_fd
      → Ends (λ c v. Refines c b (view v)) (blocking rounds call fd w)
  unfolding blocking set_wait
  blocking-Refines b rounds accepts fd w t q l h here room =
      queued-Refines b rounds accepts fd w t q l h here room
  blocking-Refines b rounds (reads len) fd w t q l h here room =
      rw (here, modify) (set_wait-Refines b rounds (reads len) fd w t q l h here room)
  blocking-Refines b rounds (writes len) fd w t q l h here room =
      rw (here, modify) (set_wait-Refines b rounds (writes len) fd w t q l h here room)

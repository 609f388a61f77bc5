-- ===== src/Syscall/Queue.antt =====
-- The blocking calls (src/cosyscall.c): how a coroutine comes to wait.
use libco_lite.Base.{
  ℕ, ◌<◌, ◌≡◌, refl, sym, subst, fun_ext, ap, ◌∙◌, inl, inr, ℤ, is_negative, true, false, some,
  arith, ◌==◌, if◌then◌else◌, update, update-update, update_self, bit_and, Bool-cases,
}
use libco_lite.Base.Bits.{clear_one, clear_four}
use libco_lite.Platform.{Platform}
use libco_lite.Thread.{
  max_fd, wait, Call, accepts, reads, writes, Frame, waiting, Task, Table, ThreadEnv, World, Run,
  ok, deref, and_then, pure, modify, set_env, put_task,
}
use libco_lite.Thread.Returns
use libco_lite.Thread.Returns.{Returns, returns, Keeps, kept}
use libco_lite.Thread.Valid.{IsValid, put-IsValid}
use libco_lite.Sched.Schedule.{Scheduled, schedule-Scheduled}
use libco_lite.Coroutine.{Control, returns_int, goes}
use libco_lite.Syscall.{event_of, add_queue, wait_loop, blocking, set_wait}
use libco_lite.Syscall.Add.{armed, Fields, Registered, Added, Added-Fields, add_queue-Added}

-- What a blocking call does, by what `add_queue` gives back: it returns that error, or parks the task
-- on the queue of the descriptor and hands over to another task.
pub data Blocked {p : Platform} (w : World p) (call : Call) (fd : ℕ) (r : Run p Control)
    : Type 0 where
  refused :
      (ret : ℤ) (v : World p)
      → is_negative ret ≡ true
      → Added w fd (event_of call) ret v
      → r ≡ ok (returns_int ret) v
      → Blocked w call fd r
  parked :
      (ret : ℤ) (u : World p)
      → is_negative ret ≡ false
      → Added w fd (event_of call) ret u
      → Keeps (λ c v. (f : Frame) × (c ≡ goes f) × Scheduled u (waiting call fd) f v) r
      → Blocked w call fd r

-- The awaited bit is clear in a block that `add_queue` has armed.
armed_clear :
    (call : Call) (fd : ℕ) (a b : Task)
    → Fields fd (event_of call) (armed fd (event_of call) a) b
    → (bit_and (b.revents fd) (event_of call) == 0) ≡ true
armed_clear accepts fd a b h = ground (arith, clear_one (a.revents fd))
armed_clear (reads len) fd a b h = ground (arith, clear_one (a.revents fd))
armed_clear (writes len) fd a b h = ground (arith, clear_four (a.revents fd))

module _ {p : Platform} where
  pub Added-IsValid :
      {w v : World p} {fd events : ℕ} {ret : ℤ}
      → IsValid w.env
      → Added w fd events ret v
      → IsValid v.env
  Added-IsValid {w} {v} valid a =
      subst (λ x. IsValid x) (sym a.env)
        (put-IsValid w.env w.current a.before a.after _ valid a.here
          (ground (arith, Added-Fields a)))

  -- Writing the block that is there changes nothing.
  put-same :
      (u : World p) (i : ℕ) (b b' : Task) → u.task i ≡ some b → b' ≡ b → put_task u i (some b') ≡ u
  put-same u i b b' h e =
      ap (λ (f : Table). set_env u (record (u.env) { task = f })) (fun_ext λ j. ground arith)

  -- A task that waits without its event hands over.
  wait_loop-hands_over :
      (rounds : ℕ) (call : Call) (fd : ℕ) (u : World p) (b : Task)
      → IsValid u.env
      → u.task u.current ≡ some b
      → b.status ≡ wait
      → (bit_and (b.revents fd) (event_of call) == 0) ≡ true
      → Keeps
          (λ c v. (f : Frame) × (c ≡ goes f) × Scheduled u (waiting call fd) f v)
          (wait_loop rounds call fd u)
  unfolding wait_loop
  wait_loop-hands_over rounds call fd u b valid here waits clear =
      rw (here, deref, clear)
        (rw (here, modify, put-same u u.current b (record b { status = wait }) here (ground arith))
          (Returns.chain (λ f. pure (goes f)) (schedule-Scheduled rounds u (waiting call fd) valid)
            λ f v s. kept (f, refl, s)))

  -- What `co_read` and `co_write` do in front of `add_queue` makes no difference to its effect.
  Added-after_wait :
      (w v : World p) (fd events : ℕ) (ret : ℤ) (t : Task)
      → w.task w.current ≡ some t
      → Added (put_task w w.current (some (record t { status = wait }))) fd events ret v
      → Added w fd events ret v
  Added-after_wait w v fd events ret t h a = record {
    before = t;
    after = a.after;
    here = h;
    made = a.made;
    registered =
        let same : armed fd events a.before ≡ armed fd events t = ap (armed fd events) was in
        subst (λ x. Registered p w.epfd fd events w.kernel x a.after a.made v.kernel) same
          a.registered;
    result = a.result;
    env =
        a.env
        ∙ ap
            (λ (f : Table). record (w.env) {
              task = f;
              block_queue =
                  if is_negative ret
                  then w.block_queue
                  else p.tailq_insert_tail w.block_queue fd w.current;
            })
            (update-update w.task w.current (some (record t { status = wait })) (some a.after));
  }
    where
      was : a.before ≡ record t { status = wait }
      was =
          let s = update_self w.task w.current (some (record t { status = wait })) in
          ground (arith, a.here)

  Added-hands_over :
      (rounds : ℕ) (call : Call) (fd : ℕ) (w v : World p) (ret : ℤ)
      → IsValid w.env
      → Added w fd (event_of call) ret v
      → Keeps
          (λ c x. (f : Frame) × (c ≡ goes f) × Scheduled v (waiting call fd) f x)
          (wait_loop rounds call fd v)
  Added-hands_over rounds call fd w v ret valid a =
      let slots : v.task ≡ update w.task w.current (some a.after) =
        ap (λ (e : ThreadEnv p). e.task) a.env in
      let same : v.current ≡ w.current = ap (λ (e : ThreadEnv p). e.current) a.env in
      wait_loop-hands_over rounds call fd v a.after (Added-IsValid valid a)
        (rw same
          (ap (λ (f : Table). f w.current) slots ∙ update_self w.task w.current (some a.after)))
        (ground (arith, Added-Fields a)) (armed_clear call fd a.before a.after (Added-Fields a))

  -- The rest of a blocking call, behind `set_wait`.
  add_queue-Blocked :
      (rounds : ℕ) (call : Call) (fd : ℕ) (w u : World p) (t : Task)
      → IsValid w.env
      → fd < max_fd
      → u.task u.current ≡ some t
      → t.fds_idx < max_fd
      → ((ret : ℤ) (v : World p)
          → Added u fd (event_of call) ret v
          → Added w fd (event_of call) ret v)
      → Blocked w call fd (
          and_then
            (add_queue fd (event_of call) u)
            (λ ret. if is_negative ret then pure (returns_int ret) else wait_loop rounds call fd))
  add_queue-Blocked rounds call fd w u t valid h here room from =
      inside (add_queue-Added u fd (event_of call) t h here room)
    where
      inside :
          {r : Run p ℤ}
          → Returns (Added u fd (event_of call)) r
          → Blocked w call fd (
              and_then r (λ ret.
                if is_negative ret then pure (returns_int ret) else wait_loop rounds call fd))
      inside (returns {a = ret} {w = v} a) = elim (Bool-cases (is_negative ret)) [
        | inl n ↦ rw n (refused ret v n (from ret v a) refl)
        | inr n ↦ rw n (
            parked ret v n (from ret v a)
              (Added-hands_over rounds call fd w v ret valid (from ret v a)))
      ]

  pub blocking-Blocked :
      (rounds : ℕ) (call : Call) (fd : ℕ) (w : World p) (t : Task)
      → IsValid w.env
      → fd < max_fd
      → w.task w.current ≡ some t
      → t.fds_idx < max_fd
      → Blocked w call fd (blocking rounds call fd w)
  unfolding blocking set_wait
  blocking-Blocked rounds accepts fd w t valid h here room =
      add_queue-Blocked rounds accepts fd w w t valid h here room (λ ret v a. a)
  blocking-Blocked rounds (reads len) fd w t valid h here room =
      rw (here, modify)
        (add_queue-Blocked rounds (reads len) fd w _ (record t { status = wait }) valid h
          (update_self w.task w.current _) room
          (λ ret v. Added-after_wait w v fd (event_of (reads len)) ret t here))
  blocking-Blocked rounds (writes len) fd w t valid h here room =
      rw (here, modify)
        (add_queue-Blocked rounds (writes len) fd w _ (record t { status = wait }) valid h
          (update_self w.task w.current _) room
          (λ ret v. Added-after_wait w v fd (event_of (writes len)) ret t here))

-- ===== src/Syscall/Add.antt =====
-- `add_queue` (src/cosyscall.c): a coroutine is registered on a descriptor and put on its queue.
use libco_lite.Base.{
  ℕ, ◌+◌, ◌<◌, ◌≡◌, refl, ap, ◌∙◌, ◌⊎◌, inl, inr, ℤ, pos, is_negative, true, false, some, arith,
  ◌==◌, ltb, if◌then◌else◌, update, update-update, bit_and, bit_or, Bool-cases,
}
use libco_lite.Platform.{Platform, ctl_add, ctl_mod}
use libco_lite.Thread.{max_fd, epollin, wait, Task, Table, ThreadEnv, World, deref, pure, modify}
use libco_lite.Thread.Returns
use libco_lite.Thread.Returns.{Returns, returns, Keeps, kept}
use libco_lite.Syscall.{complement, rewatch, arm, watch, watch_new, watch_more, enqueue, add_queue}

-- The current task's block as `add_queue` makes it first: waiting, the awaited bits of `revents`
-- clear.
abbrev pub armed : ℕ → ℕ → Task → Task
armed fd events t = record t {
  status = wait;
  revents = update t.revents fd (bit_and (t.revents fd) (complement events));
}

-- The block after a first `add_queue` on a descriptor.
abbrev pub watched : ℕ → Task → Task
watched fd t = record t {
  fds = update t.fds t.fds_idx fd;
  fds_idx = t.fds_idx + 1;
  events = update t.events fd (record { fd = fd; mask = epollin });
}

-- The block after an `add_queue` that extends the mask.
abbrev pub extended : ℕ → ℕ → Task → Task
extended fd events t = record t {
  events =
      update t.events fd
        (record { fd = (t.events fd).fd; mask = bit_or (t.events fd).mask events });
}

-- What `watch` may do to a block.
abbrev pub Fields : ℕ → ℕ → Task → Task → Type 0
Fields fd events a b = (b ≡ a) ⊎ (b ≡ watched fd a) ⊎ (b ≡ extended fd events a)

-- How `add_queue` registers an armed block `a` on a descriptor, from kernel state `k`: the block `b` it
-- makes of it, the result, and the kernel state then. Both come from one call of `epoll_ctl`, or
-- none is made and the result is 0.
pub data Registered (p : Platform) (epfd fd events : ℕ) (k : p.Kernel) (a b : Task) (made : ℤ)
    (k' : p.Kernel) : Type 0 where
  added :
      ((a.events fd).fd == 0) ≡ true
      → b ≡ watched fd a
      → p.epoll_ctl k epfd ctl_add fd events ≡ (made, k')
      → Registered p epfd fd events k a b made k'
  changed :
      ((a.events fd).fd == 0) ≡ false
      → (rewatch (a.events fd).mask events == 0) ≡ false
      → b ≡ extended fd events a
      → p.epoll_ctl k epfd ctl_mod fd (bit_or events (bit_or (a.events fd).mask events))
        ≡ (made, k')
      → Registered p epfd fd events k a b made k'
  untouched :
      ((a.events fd).fd == 0) ≡ false
      → (rewatch (a.events fd).mask events == 0) ≡ true
      → b ≡ a
      → made ≡ pos 0
      → k' ≡ k
      → Registered p epfd fd events k a b made k'

-- From `w`, `add_queue` has armed the current block, has registered it, and has put the task at the end of
-- the queue of `fd` and given 0, or has given the error of `epoll_ctl` back.
pub record Added {p : Platform} (w : World p) (fd events : ℕ) (ret : ℤ) (v : World p) : Type 0 where
  pub before : Task
  pub after : Task
  pub made : ℤ
  pub here : w.task w.current ≡ some before
  pub registered :
      Registered p w.epfd fd events w.kernel (armed fd events before) after made v.kernel
  pub result : ret ≡ (if is_negative made then made else pos 0)
  pub env : v.env ≡ record (w.env) {
    task = update w.task w.current (some after);
    block_queue =
        if is_negative ret then w.block_queue else p.tailq_insert_tail w.block_queue fd w.current;
  }

-- `watch` has made `b` of the current block `a`, and has written nothing else of the environment.
record Written {p : Platform} (u : World p) (fd events : ℕ) (a b : Task) (ret : ℤ) (v : World p)
    : Type 0 where
  env : v.env ≡ record (u.env) { task = update u.task u.current (some b) }
  registered : Registered p u.epfd fd events u.kernel a b ret v.kernel

module _ {p : Platform} where
  Registered-Fields :
      {epfd fd events : ℕ} {k k' : p.Kernel} {a b : Task} {made : ℤ}
      → Registered p epfd fd events k a b made k'
      → Fields fd events a b
  Registered-Fields (added new e ctl) = inr (inl e)
  Registered-Fields (changed old more e ctl) = inr (inr e)
  Registered-Fields (untouched old same e zero still) = inl e

  -- What has become of the block.
  pub Added-Fields :
      {w v : World p} {fd events : ℕ} {ret : ℤ} (a : Added w fd events ret v)
      → Fields fd events (armed fd events a.before) a.after
  Added-Fields a = Registered-Fields a.registered

  watch_new-Written :
      (u : World p) (fd events : ℕ) (a : Task)
      → u.task u.current ≡ some a
      → a.fds_idx < max_fd
      → ((a.events fd).fd == 0) ≡ true
      → Returns (λ ret v. Written u fd events a (watched fd a) ret v) (watch_new fd events u)
  unfolding watch_new
  watch_new-Written u fd events a e room new =
      let inside : ltb a.fds_idx max_fd ≡ true = ground arith in
      rw (e, deref, inside)
        (rw (e, modify) (returns (record { env = refl; registered = added new refl refl })))

  watch_more-Written :
      (u : World p) (fd events : ℕ) (a : Task)
      → u.task u.current ≡ some a
      → ((a.events fd).fd == 0) ≡ false
      → (rewatch (a.events fd).mask events == 0) ≡ false
      → Returns
          (λ ret v. Written u fd events a (extended fd events a) ret v)
          (watch_more fd events u)
  unfolding watch_more
  watch_more-Written u fd events a e old more =
      rw (e, deref)
        (rw (e, modify) (returns (record { env = refl; registered = changed old more refl refl })))

  overwrite :
      (w u v : World p) (a b : Task)
      → u.env ≡ record (w.env) { task = update w.task w.current (some a) }
      → v.env ≡ record (u.env) { task = update u.task u.current (some b) }
      → v.env ≡ record (w.env) { task = update w.task w.current (some b) }
  overwrite w u v a b e f =
      f
      ∙ ap (λ (x : ThreadEnv p). record x { task = update x.task x.current (some b) }) e
      ∙ ap (λ (t : Table). record (w.env) { task = t })
          (update-update w.task w.current (some a) (some b))

  watch-Written :
      (w u : World p) (fd events : ℕ) (a : Task)
      → u.env ≡ record (w.env) { task = update w.task w.current (some a) }
      → a.fds_idx < max_fd
      → Returns
          (λ ret v.
            (b : Task) × Registered p u.epfd fd events u.kernel a b ret v.kernel
            × (v.env ≡ record (w.env) { task = update w.task w.current (some b) }))
          (watch fd events u)
  unfolding watch
  watch-Written w u fd events a e room =
      let here : u.task u.current ≡ some a = ground arith in
      rw (here, deref)
        (elim (Bool-cases ((a.events fd).fd == 0)) [
          | inl z ↦ rw z (
              Returns.weaken (watch_new-Written u fd events a here room z)
                λ ret v x. (watched fd a, x.registered, overwrite w u v a (watched fd a) e x.env))
          | inr z ↦ rw z (elim (Bool-cases (rewatch (a.events fd).mask events == 0)) [
            | inl y ↦ rw y (returns (a, untouched z y refl refl refl, e))
            | inr y ↦ rw y (
                Returns.weaken (watch_more-Written u fd events a here z y) λ ret v x. (
                  extended fd events a,
                  x.registered,
                  overwrite w u v a (extended fd events a) e x.env,
                ))
          ])
        ])

  -- `add_queue` returns, on a descriptor within MAX_FD and with room in `fds`: the current task then
  -- waits with the awaited bits of `revents` clear, is registered by a call of `epoll_ctl` unless its mask
  -- needs none, and stands at the end of the descriptor's queue unless that call failed.
  pub add_queue-Added :
      (w : World p) (fd events : ℕ) (t : Task)
      → fd < max_fd
      → w.task w.current ≡ some t
      → t.fds_idx < max_fd
      → Returns (Added w fd events) (add_queue fd events w)
  unfolding add_queue arm enqueue
  add_queue-Added w fd events t h here room =
      let inside : ltb fd max_fd ≡ true = ground arith in
      rw (inside, here, modify)
        (Returns.bind (λ ret. if is_negative ret then pure ret else enqueue fd)
          (watch-Written w _ fd events (armed fd events t) refl room)
          λ ret u (b, registered, e). elim (Bool-cases (is_negative ret)) [
            | inl n ↦ rw n (
                returns (record {
                  before = t;
                  after = b;
                  made = ret;
                  here = here;
                  registered = registered;
                  result = rw n;
                  env = rw n e;
                }))
            | inr n ↦ rw n (
                returns (record {
                  before = t;
                  after = b;
                  made = ret;
                  here = here;
                  registered = registered;
                  result = rw n;
                  env =
                      ap
                        (λ (x : ThreadEnv p). record x {
                          block_queue = p.tailq_insert_tail x.block_queue fd x.current;
                        })
                        e;
                }))
          ])

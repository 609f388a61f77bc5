-- ===== src/Platform.antt =====
-- What the coroutine library calls and does not implement: the kernel (gettimeofday, epoll, socket
-- calls) and the tail queues of include/queue.h, a copy of the BSD header. Both are taken as one
-- interface. A tail queue keeps its documented promises only when it is used as documented: an
-- entry is inserted while it is on no queue, and removed from the queue that holds it.
use libco_lite.Base.{
  ℕ, ◌≡◌, Bool, true, false, ◌||◌, Option, none, some, List, [], ◌∷◌, ◌++◌, ℤ, ◌==◌, if◌then◌else◌,
  is_some,
}

-- `struct timeval`.
pub record Timeval : Type 0 where
  pub tv_sec : ℕ
  pub tv_usec : ℕ

-- The operations of `epoll_ctl`.
pub data CtlOp : Type 0 where
  ctl_add ctl_mod ctl_del : CtlOp

-- `struct epoll_event`: the mask, and the descriptor in `data.fd`.
pub record EpollEvent : Type 0 where
  pub events : ℕ
  pub fd : ℕ

abbrev pub has : ℕ → List ℕ → Bool
has a [] = false
has a (x ∷ xs) = (a == x) || has a xs

-- The list without the first occurrence of an entry.
abbrev pub erase : ℕ → List ℕ → List ℕ
erase a [] = []
erase a (x ∷ xs) = if a == x then xs else x ∷ erase a xs

abbrev pub head? : List ℕ → Option ℕ
head? [] = none
head? (x ∷ xs) = some x

pub record Platform : Type 1 where
  -- The kernel.
  pub Kernel : Type 0
  pub gettimeofday : Kernel → Option Timeval × Kernel
  -- Whether `calloc` gives a block.
  pub calloc : Kernel → Bool × Kernel
  pub epoll_create : Kernel → ℕ × Kernel
  pub epoll_ctl : Kernel → ℕ → CtlOp → ℕ → ℕ → ℤ × Kernel
  -- The events that are ready, or `none` where the call returns -1.
  pub epoll_wait : Kernel → ℕ → ℕ → Option (List EpollEvent) × Kernel
  pub accept : Kernel → ℕ → ℤ × Kernel
  pub read : Kernel → ℕ → ℕ → ℤ × Kernel
  pub write : Kernel → ℕ → ℕ → ℤ × Kernel
  -- `gettimeofday` fails only on a bad pointer, and the code passes a good one.
  pub clock_works : (k : Kernel) → is_some (gettimeofday k).0 ≡ true
  -- The block queues of one thread: a queue of tasks for each descriptor, over one link field in
  -- each task.
  pub Queues : Type 0
  pub queues_init : Queues
  pub tailq_first : Queues → ℕ → Option ℕ
  pub tailq_insert_tail : Queues → ℕ → ℕ → Queues
  pub tailq_remove : Queues → ℕ → ℕ → Queues
  -- The tasks on the queue of a descriptor, first to last.
  pub contents : Queues → ℕ → List ℕ
  pub contents_init : (fd : ℕ) → contents queues_init fd ≡ []
  pub first_lem : (q : Queues) (fd : ℕ) → tailq_first q fd ≡ head? (contents q fd)
  pub insert_lem :
      (q : Queues) (fd t : ℕ)
      → ((g : ℕ) → has t (contents q g) ≡ false)
      → (g : ℕ)
      → contents (tailq_insert_tail q fd t) g
        ≡ (if fd == g then contents q g ++ t ∷ [] else contents q g)
  pub remove_lem :
      (q : Queues) (fd t : ℕ)
      → has t (contents q fd) ≡ true
      → (g : ℕ)
      → contents (tailq_remove q fd t) g
        ≡ (if fd == g then erase t (contents q g) else contents q g)

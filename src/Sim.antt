-- ===== src/Sim.antt =====
-- A platform that can be run: a clock that steps, an epoll with a script of events, and block
-- queues as plain lists. It shows that what the development asks of a platform can be met.
use libco_lite.Base.{
  ℕ, ◌+◌, ◌*◌, ◌≡◌, refl, true, Option, some, List, [], ◌∷◌, ◌++◌, pos, arith, ◌==◌, if◌then◌else◌,
  update,
}
use libco_lite.Platform.{Platform, Timeval, EpollEvent, erase, head?}

pub record SimKernel : Type 0 where
  pub now : ℕ
  pub pace : ℕ
  pub script : List (List EpollEvent)

abbrev clock : SimKernel → Option Timeval × SimKernel
clock k = (some (record { tv_sec = 0; tv_usec = k.now * 1000 }), record k { now = k.now + k.pace })

abbrev next_events : List (List EpollEvent) → SimKernel → Option (List EpollEvent) × SimKernel
next_events [] k = (some [], k)
next_events (evs ∷ more) k = (some evs, record k { script = more })

abbrev insert : (ℕ → List ℕ) → ℕ → ℕ → ℕ → List ℕ
insert q fd t = update q fd (q fd ++ t ∷ [])

abbrev remove : (ℕ → List ℕ) → ℕ → ℕ → ℕ → List ℕ
remove q fd t = update q fd (erase t (q fd))

same_fd : (a b : ℕ) → (a == b) ≡ true → a ≡ b
same_fd a b h = ground arith

pub insert-contents :
    (q : ℕ → List ℕ) (fd t g : ℕ) → insert q fd t g ≡ (if fd == g then q g ++ t ∷ [] else q g)
insert-contents q fd t g = ground (arith, same_fd fd g)

pub remove-contents :
    (q : ℕ → List ℕ) (fd t g : ℕ) → remove q fd t g ≡ (if fd == g then erase t (q g) else q g)
remove-contents q fd t g = ground (arith, same_fd fd g)

abbrev pub sim : Platform
sim = record {
  Kernel = SimKernel;
  gettimeofday = clock;
  calloc = λ k. (true, k);
  epoll_create = λ k. (3, k);
  epoll_ctl = λ k epfd op fd mask. (pos 0, k);
  epoll_wait = λ k epfd most. next_events k.script k;
  accept = λ k fd. (pos 9, k);
  read = λ k fd len. (pos len, k);
  write = λ k fd len. (pos len, k);
  clock_works = λ k. refl;
  Queues = ℕ → List ℕ;
  queues_init = λ fd. [];
  tailq_first = λ q fd. head? (q fd);
  tailq_insert_tail = insert;
  tailq_remove = remove;
  contents = λ q fd. q fd;
  contents_init = λ fd. refl;
  first_lem = λ q fd. refl;
  insert_lem = λ q fd t off g. insert-contents q fd t g;
  remove_lem = λ q fd t on g. remove-contents q fd t g;
}

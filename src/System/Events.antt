-- ===== src/System/Events.antt =====
-- `co_eventloop` keeps the invariant of a thread's coroutines.
use libco_lite.Base.{
  ℕ, ◌≡◌, refl, sym, ap, subst, ◌∙◌, ◌⊎◌, inl, inr, true, false, some, List, [], ◌∷◌, arith, ◌==◌,
  ==_refl, ltb, if◌then◌else◌, update, Bool-cases, Option-cases,
}
use libco_lite.Platform.{Platform, EpollEvent, has, erase}
use libco_lite.Thread.{
  max_fd, running, wait, exit, Frame, polling, Task, ThreadEnv, World, Run, pure,
}
use libco_lite.Thread.Returns.{Ends, Ends-ok, Ends-fault, Ends-exited, Ends-Keeps, Ends-bind}
use libco_lite.Thread.Valid.{IsValid, put-IsValid, queue-IsValid}
use libco_lite.Sched.{schedule}
use libco_lite.Sched.Schedule.{schedule-Scheduled}
use libco_lite.Coroutine.{goes}
use libco_lite.EventLoop.{dispatch, dispatch_all, co_eventloop}
use libco_lite.EventLoop.Dispatch.{
  Dispatched, nobody, dangling, served, notified, matches, dispatch-Dispatched,
}
use libco_lite.System.Linked.{IsLinked, IsLive, IsSafe, Scheduled-IsSafe}

-- An entry that occurs once in a list occurs once at most in its tail.
erase-tail :
    (k j : ℕ) (rest : List ℕ) → has k (erase k (j ∷ rest)) ≡ false → has k (erase k rest) ≡ false
erase-tail k j [] h = refl
erase-tail k j (x ∷ rest) h = ground (arith, erase-tail k j rest)

module _ {p : Platform} where
  served-IsLive :
      (w v : World p) (ev : EpollEvent) (j : ℕ) (rest : List ℕ) (t : Task)
      → IsLive w.env
      → p.contents w.block_queue ev.fd ≡ j ∷ rest
      → w.task j ≡ some t
      → v.env ≡ record (w.env) {
        task = if matches ev t then update w.task j (some (notified ev t)) else w.task;
        block_queue = p.tailq_remove w.block_queue ev.fd j;
      }
      → ((g : ℕ)
          → p.contents v.block_queue g ≡ (if ev.fd == g then rest else p.contents w.block_queue g))
      → IsLive v.env
  served-IsLive w v ev j rest t l e o env_eq q = record {
    linked = record {
      valid = valid;
      ended = λ k x f y. elim (slots k) [
        | inl same ↦ l.linked.ended k x (sym same ∙ f) y
        | inr (c, now) ↦ ground (arith, waited, l.linked.ended j t o)
      ];
      queued = λ fd k h. elim (slots k) [
        | inl same ↦ let (x, f, s) = l.linked.queued fd k (before fd k h) in (x, same ∙ f, s)
        | inr (c, now) ↦
            absurd
              (ground (arith, subst (λ i. has i (p.contents v.block_queue fd) ≡ false) c (gone fd)))
      ];
      once = λ fd g k a b. l.linked.once fd g k (before fd k a) (before g k b);
      single = λ fd k. elim (Bool-cases (ev.fd == fd)) [
        | inl c ↦ ground (arith, q fd, e, l.linked.single ev.fd k, erase-tail k j rest)
        | inr c ↦ ground (arith, q fd, l.linked.single fd k)
      ];
    };
    alive = λ x f s. elim (slots v.current) [
      | inl same ↦ l.alive x (subst (λ i. w.task i ≡ some x) here (sym same ∙ f)) s
      | inr (c, now) ↦ ground arith
    ];
    off = λ fd. elim (Bool-cases (has v.current (p.contents v.block_queue fd))) [
      | inr h ↦ h
      | inl h ↦
          let on =
            subst (λ i. has i (p.contents w.block_queue fd) ≡ true) here (before fd v.current h) in
          absurd (ground (arith, l.off fd))
    ];
  }
    where
      here : v.current ≡ w.current
      here = ap (λ (x : ThreadEnv p). x.current) env_eq

      on_first : has j (p.contents w.block_queue ev.fd) ≡ true
      on_first = rw e (ground arith)

      waited : t.status ≡ wait
      waited = let (x, f, s) = l.linked.queued ev.fd j on_first in ground arith

      slots : (k : ℕ) → (v.task k ≡ w.task k) ⊎ ((j ≡ k) × (v.task k ≡ some (notified ev t)))
      slots k =
          let s = ap (λ (x : ThreadEnv p). x.task k) env_eq in
          elim (Bool-cases (matches ev t)) [ inl m ↦ ground arith | inr m ↦ inl (ground arith) ]

      before :
          (fd k : ℕ)
          → has k (p.contents v.block_queue fd) ≡ true
          → has k (p.contents w.block_queue fd) ≡ true
      before fd k h = elim (Bool-cases (ev.fd == fd)) [
        | inl c ↦
            let same : ev.fd ≡ fd = ground arith in
            subst (λ g. has k (p.contents w.block_queue g) ≡ true) same
              (rw e (ground (arith, q fd)))
        | inr c ↦ ground (arith, q fd)
      ]

      gone : (fd : ℕ) → has j (p.contents v.block_queue fd) ≡ false
      gone fd = elim (Bool-cases (ev.fd == fd)) [
        | inl c ↦ ground (arith, q fd, e, l.linked.single ev.fd j, ==_refl j)
        | inr c ↦ elim (Bool-cases (has j (p.contents v.block_queue fd))) [
          | inr h ↦ h
          | inl h ↦ absurd (ground (arith, l.linked.once ev.fd fd j on_first (before fd j h)))
        ]
      ]

      valid : IsValid v.env
      valid =
          subst (λ x. IsValid x) (sym env_eq)
            (elim (Bool-cases (matches ev t)) [
              | inl m ↦ rw m (put-IsValid w.env j t (notified ev t) _ l.linked.valid o refl)
              | inr m ↦ rw m (queue-IsValid w.env _ l.linked.valid)
            ])

  pub dispatch-IsLive :
      (w : World p) (ev : EpollEvent) → IsLive w.env → Ends (λ _ v. IsLive v.env) (dispatch ev w)
  unfolding dispatch
  dispatch-IsLive w ev l = elim (Bool-cases (ltb ev.fd max_fd)) [
    | inr h ↦ rw h (Ends-fault (λ _ v. IsLive v.env))
    | inl h ↦ by_outcome (dispatch-Dispatched w ev (ground arith))
  ]
    where
      by_outcome : {r : Run p (Unit {0})} → Dispatched w ev r → Ends (λ _ v. IsLive v.env) r
      by_outcome (nobody e f) = rw f (Ends-fault (λ _ v. IsLive v.env))
      by_outcome (dangling j rest e o f) = rw f (Ends-fault (λ _ v. IsLive v.env))
      by_outcome (served j rest t v e o f k env_eq q) =
          rw f (Ends-ok (λ _ v. IsLive v.env) (served-IsLive w v ev j rest t l e o env_eq q))

  pub dispatch_all-IsLive :
      (evs : List EpollEvent) (w : World p)
      → IsLive w.env
      → Ends (λ _ v. IsLive v.env) (dispatch_all evs w)
  unfolding dispatch_all
  dispatch_all-IsLive [] w l = Ends-ok (λ _ v. IsLive v.env) l
  dispatch_all-IsLive (ev ∷ evs) w l =
      Ends-bind (λ _ v. IsLive v.env) (λ _ v. IsLive v.env) (dispatch ev w) (λ _. dispatch_all evs)
        (dispatch-IsLive w ev l) λ _ v k. dispatch_all-IsLive evs v k

  -- `schedule` behind a call's own changes.
  pub schedule-IsSafe :
      (rounds : ℕ) (w : World p) (site : Frame)
      → IsLinked w.env
      → (site ≡ Frame.exiting → (t : Task) → w.task w.current ≡ some t → t.status ≡ exit)
      → Ends IsSafe (libco_lite.Thread.and_then (schedule rounds site w) (λ f. pure (goes f)))
  schedule-IsSafe rounds w site l at_exit =
      Ends-bind (λ f v. IsSafe (goes f) v) IsSafe (schedule rounds site w) (λ f. pure (goes f))
        (Ends-Keeps _ (λ f v. IsSafe (goes f) v) (schedule rounds site w)
          (schedule-Scheduled rounds w site l.valid)
          (λ f v s. Scheduled-IsSafe w v site f l at_exit s))
        λ f v s. Ends-ok IsSafe s

  pub co_eventloop-IsSafe :
      (rounds : ℕ) (w : World p) → IsLive w.env → Ends IsSafe (co_eventloop rounds w)
  unfolding co_eventloop
  co_eventloop-IsSafe rounds w l = elim (Option-cases (p.epoll_wait w.kernel w.epfd 1024).0) [
    | inl e ↦ rw (e, co_eventloop) (Ends-exited IsSafe 1)
    | inr (evs, e) ↦
        rw (e, co_eventloop)
          (Ends-bind (λ _ v. IsLive v.env) IsSafe
            (dispatch_all evs (record w { kernel = (p.epoll_wait w.kernel w.epfd 1024).1 })) _
            (dispatch_all-IsLive evs _ l)
            λ _ v k. schedule-IsSafe rounds v polling k.linked (λ x. cc))
  ]

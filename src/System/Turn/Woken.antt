-- ===== src/System/Turn/Woken.antt =====
-- An event wakes who waits for it (`co_eventloop`, src/coeventloop.c), however many events the same
-- `epoll_wait` has for others.
use libco_lite.Base.{
  ℕ, ◌≡◌, ◌≢◌, refl, sym, ap, ◌∙◌, inl, inr, Bool, true, false, some, List, [], ◌∷◌, ◌++◌, ◌||◌,
  arith, ◌==◌, ltb, update_self, update-ne, bit_and, Bool-cases,
}
use libco_lite.Platform.{Platform, EpollEvent, has}
use libco_lite.Thread.{max_fd, polling, Task, ThreadEnv, World, Run}
use libco_lite.Thread.Returns.{Ends, Ends-ok, Ends-fault, Ends-bind}
use libco_lite.EventLoop.{dispatch, dispatch_all, co_eventloop}
use libco_lite.EventLoop.Dispatch.{
  Dispatched, nobody, dangling, served, notified, matches, dispatch-Dispatched,
}
use libco_lite.System.Linked.{IsLive}
use libco_lite.System.Events.{dispatch-IsLive}
use libco_lite.System.Turn.{Holds, Turn, scheduled-Turn}
use libco_lite.System.Turn.Steps.{dispatch_all-Holds}

-- Some event of the list is on the descriptor.
abbrev pub mentions : ℕ → List EpollEvent → Bool
mentions fd [] = false
mentions fd (ev ∷ evs) = (ev.fd == fd) || mentions fd evs

module _ {p : Platform} (ev : EpollEvent) (j : ℕ) (t : Task) (rest : List ℕ) where
  -- `j` is the first on the queue of the event's descriptor.
  abbrev Heads : World p → Type 0
  Heads w = (w.task j ≡ some t) × (p.contents w.block_queue ev.fd ≡ j ∷ rest)

  Heads-on : (w : World p) → Heads w → has j (p.contents w.block_queue ev.fd) ≡ true
  Heads-on w h = rw (h.1) (ground arith)

  Heads-ne : (w : World p) → IsLive w.env → Heads w → w.current ≢ j
  Heads-ne w l h e = absurd (
      ground (arith, Heads-on w h, l.off ev.fd, ap (λ i. has i (p.contents w.block_queue ev.fd)) e))

  -- An event on another descriptor leaves it there.
  dispatch-Heads :
      (other : EpollEvent) (w : World p)
      → IsLive w.env
      → (other.fd == ev.fd) ≡ false
      → Heads w
      → Ends (λ _ v. Heads v) (dispatch other w)
  unfolding dispatch
  dispatch-Heads other w l ne h = elim (Bool-cases (ltb other.fd max_fd)) [
    | inr x ↦ rw x (Ends-fault (λ _ v. Heads v))
    | inl x ↦ by_outcome (dispatch-Dispatched w other (ground arith))
  ]
    where
      by_outcome : {r : Run p (Unit {0})} → Dispatched w other r → Ends (λ _ v. Heads v) r
      by_outcome (nobody e f) = rw f (Ends-fault (λ _ v. Heads v))
      by_outcome (dangling k more e o f) = rw f (Ends-fault (λ _ v. Heads v))
      by_outcome (served k more x v e o f kernel env_eq out) =
          let apart : k ≢ j = λ same.
            let on : has k (p.contents w.block_queue other.fd) ≡ true = rw e (ground arith) in
            absurd (ground (arith, l.linked.once other.fd ev.fd k on, same, Heads-on w h)) in
          rw f (
            Ends-ok (λ _ v. Heads v)
              (
                ap (λ (y : ThreadEnv p). y.task j) env_eq ∙ (elim (Bool-cases (matches other x)) [
                  | inl m ↦ rw m (update-ne w.task k _ j apart ∙ h.0)
                  | inr m ↦ rw m (h.0)
                ]),
                out ev.fd ∙ rw ne (h.1),
              ))

  module _ (wanted : (bit_and (t.events ev.fd).mask ev.events == 0) ≡ false) where
    -- The event wakes it.
    dispatch-Woken :
        (w : World p)
        → IsLive w.env
        → Heads w
        → Ends (λ _ v. Holds j (notified ev t) refl v) (dispatch ev w)
    unfolding dispatch
    dispatch-Woken w l h = elim (Bool-cases (ltb ev.fd max_fd)) [
      | inr x ↦ rw x (Ends-fault (λ _ v. Holds j (notified ev t) refl v))
      | inl x ↦ by_outcome (dispatch-Dispatched w ev (ground arith))
    ]
      where
        by_outcome :
            {r : Run p (Unit {0})}
            → Dispatched w ev r
            → Ends (λ _ v. Holds j (notified ev t) refl v) r
        by_outcome (nobody e f) = rw f (Ends-fault (λ _ v. Holds j (notified ev t) refl v))
        by_outcome (dangling k more e o f) =
            rw f (Ends-fault (λ _ v. Holds j (notified ev t) refl v))
        by_outcome (served k more x v e o f kernel env_eq out) =
            let kj : k ≡ j = ground (arith, h.1) in
            let xt : x ≡ t = cc (o, h.0, kj) in
            rw f (
              Ends-ok (λ _ v. Holds j (notified ev t) refl v)
                (
                  ap (λ (y : ThreadEnv p). y.task j) env_eq
                      ∙ rw (xt, kj, wanted) (update_self w.task j _),
                  λ y. Heads-ne w l h (sym (ap (λ (x : ThreadEnv p). x.current) env_eq) ∙ y),
                ))

    -- The first event of the list on its descriptor does.
    dispatch_all-Woken :
        (before after : List EpollEvent) (w : World p)
        → mentions ev.fd before ≡ false
        → IsLive w.env
        → Heads w
        → Ends (λ _ v. Holds j (notified ev t) refl v) (dispatch_all (before ++ ev ∷ after) w)
    unfolding dispatch_all
    dispatch_all-Woken [] after w first l h =
        Ends-bind (λ _ v. Holds j (notified ev t) refl v × IsLive v.env)
          (λ _ v. Holds j (notified ev t) refl v) (dispatch ev w) (λ _. dispatch_all after)
          (λ a v e. (dispatch-Woken w l h a v e, dispatch-IsLive w ev l a v e))
          λ _ v (h', l'). dispatch_all-Holds j (notified ev t) refl after v l' h'
    dispatch_all-Woken (other ∷ before) after w first l h =
        Ends-bind (λ _ v. Heads v × IsLive v.env) (λ _ v. Holds j (notified ev t) refl v)
          (dispatch other w) (λ _. dispatch_all (before ++ ev ∷ after))
          (λ a v e.
            (dispatch-Heads other w l (ground arith) h a v e, dispatch-IsLive w other l a v e))
          λ _ v (h', l'). dispatch_all-Woken before after v (ground arith) l' h'

    pub co_eventloop-Woken :
        (rounds : ℕ) (before after : List EpollEvent) (w : World p)
        → (p.epoll_wait w.kernel w.epfd 1024).0 ≡ some (before ++ ev ∷ after)
        → mentions ev.fd before ≡ false
        → IsLive w.env
        → Heads w
        → Ends (λ c v. Turn j (notified ev t) refl c v) (co_eventloop rounds w)
    unfolding co_eventloop
    co_eventloop-Woken rounds before after w got first l h =
        rw (got, co_eventloop)
          (Ends-bind (λ _ v. Holds j (notified ev t) refl v)
            (λ c v. Turn j (notified ev t) refl c v)
            (dispatch_all (before ++ ev ∷ after)
              (record w { kernel = (p.epoll_wait w.kernel w.epfd 1024).1 }))
            _ (dispatch_all-Woken before after _ first l h)
            λ _ v h'. scheduled-Turn j (notified ev t) refl rounds polling v h')

-- ===== src/EventLoop/Dispatch.antt =====
-- What `co_eventloop` (src/coeventloop.c) does with one event.
use libco_lite.Base.{
  ℕ, ◌<◌, ◌≡◌, refl, ap, ◌⊎◌, inl, inr, Bool, true, false, none, some, List, [], ◌∷◌, arith, ◌==◌,
  ltb, if◌then◌else◌, update, bit_and, Bool-cases, Option-cases,
}
use libco_lite.Platform.{Platform, EpollEvent, has}
use libco_lite.Thread.{max_fd, running, Task, World, Run, ok, fault, deref, modify}
use libco_lite.EventLoop.{dispatch}

-- The block of the task that an event wakes.
abbrev pub notified : EpollEvent → Task → Task
notified ev t = record t { status = running; revents = update t.revents ev.fd ev.events }

abbrev pub matches : EpollEvent → Task → Bool
matches ev t = if bit_and (t.events ev.fd).mask ev.events == 0 then false else true

-- The outcome, by the queue of the event's descriptor.
pub data Dispatched {p : Platform} (w : World p) (ev : EpollEvent) (r : Run p (Unit {0}))
    : Type 0 where
  nobody : p.contents w.block_queue ev.fd ≡ [] → r ≡ fault → Dispatched w ev r
  dangling :
      (j : ℕ) (rest : List ℕ)
      → p.contents w.block_queue ev.fd ≡ j ∷ rest
      → w.task j ≡ none
      → r ≡ fault
      → Dispatched w ev r
  served :
      (j : ℕ) (rest : List ℕ) (t : Task) (v : World p)
      → p.contents w.block_queue ev.fd ≡ j ∷ rest
      → w.task j ≡ some t
      → r ≡ ok tt v
      → v.kernel ≡ w.kernel
      → v.env ≡ record (w.env) {
        task = if matches ev t then update w.task j (some (notified ev t)) else w.task;
        block_queue = p.tailq_remove w.block_queue ev.fd j;
      }
      → ((g : ℕ)
          → p.contents v.block_queue g ≡ (if ev.fd == g then rest else p.contents w.block_queue g))
      → Dispatched w ev r

List-cases : (l : List ℕ) → (l ≡ []) ⊎ ((x : ℕ) × (r : List ℕ) × (l ≡ x ∷ r))
List-cases [] = inl refl
List-cases (x ∷ r) = inr (x, r, refl)

module _ (p : Platform) where
  removed-head :
      (q : p.Queues) (fd j : ℕ) (rest : List ℕ)
      → p.contents q fd ≡ j ∷ rest
      → (g : ℕ) → p.contents (p.tailq_remove q fd j) g ≡ (if fd == g then rest else p.contents q g)
  removed-head q fd j rest e g =
      let on : has j (p.contents q fd) ≡ true = ground arith in
      elim (Bool-cases (fd == g)) [
        | inl s ↦ ground (arith, p.remove_lem q fd j on g, ap (p.contents q) (same fd g s))
        | inr s ↦ ground (arith, p.remove_lem q fd j on g)
      ]
    where
      same : (a b : ℕ) → (a == b) ≡ true → a ≡ b
      same a b s = ground arith

module _ {p : Platform} where
  -- One event on a descriptor within MAX_FD takes the first task off the descriptor's queue, and off
  -- no other. The task runs again, with the event noted, if the event is one of those that its
  -- mask for the descriptor names; if not its block is left as it was. No other task changes. With
  -- an empty queue, or a first task that has been freed, the code faults.
  pub dispatch-Dispatched :
      (w : World p) (ev : EpollEvent) → ev.fd < max_fd → Dispatched w ev (dispatch ev w)
  unfolding dispatch
  dispatch-Dispatched w ev h =
      let inside : ltb ev.fd max_fd ≡ true = ground arith in
      let first = p.first_lem w.block_queue ev.fd in
      rw inside (elim (List-cases (p.contents w.block_queue ev.fd)) [
        | inl e ↦
            let f : p.tailq_first w.block_queue ev.fd ≡ none = rw (first, e) in rw f (nobody e refl)
        | inr (j, rest, e) ↦
            let f : p.tailq_first w.block_queue ev.fd ≡ some j = rw (first, e) in
            rw f (elim (Option-cases (w.task j)) [
              | inl o ↦ rw (o, deref) (dangling j rest e o refl)
              | inr (t, o) ↦
                  rw (o, deref)
                    (elim (Bool-cases (bit_and (t.events ev.fd).mask ev.events == 0)) [
                      | inl z ↦
                          rw z
                            (served j rest t _ e o refl refl (rw z) (removed-head p _ _ j rest e))
                      | inr z ↦
                          rw (z, modify, o)
                            (served j rest t _ e o refl refl (rw z) (removed-head p _ _ j rest e))
                    ])
            ])
      ])

-- ===== src/Demos/Demo03/Accept.antt =====
-- What becomes of a connection (examples/demo03.c, `my_accept`), on a thread of the library.
use libco_lite.Base.{
  ℕ, ◌+◌, ◌<◌, ◌≡◌, refl, ap, ◌∙◌, ℤ, pos, negsuc, true, false, some, arith, update, update-ne,
  is_some, Option,
}
use libco_lite.Platform.{Platform}
use libco_lite.Thread.{nr_tasks, accepts, World, Run, ok, exited, fault, and_then, ThreadEnv}
use libco_lite.Thread.Returns.{Ends, Ends-ok, Ends-fault, Ends-bind}
use libco_lite.Thread.Valid.{IsValid}
use libco_lite.Coroutine.{Control, returns_int, returns_nothing, co_create}
use libco_lite.Coroutine.Create
use libco_lite.Coroutine.Create.{born, co_create-Created}
use libco_lite.Syscall.{blocking}
use libco_lite.System.{
  Request, creates, loops, perform, Allowed, InUser, with_int, with_nothing, call, here, step,
}
use libco_lite.System.Linked.{IsSafe}
use libco_lite.System.Safety.{Reach-IsSafe}
use libco_lite.Demos.Demo03.{accepted, serve}

module _ {p : Platform} where
  -- What follows on a result of `co_accept`.
  pub data Accepted (w : World p) (rounds client_fn listenfd : ℕ) (r : Run p Control)
      : ℤ → Type 0 where
    -- `exit(-1)`.
    failed : (n : ℕ) → r ≡ exited 255 → Accepted w rounds client_fn listenfd r (negsuc n)
    -- The first free slot gets a coroutine that will run `do_client` on the descriptor.
    served :
        (fd id : ℕ) (v : World p)
        → id < nr_tasks
        → is_some (w.task id) ≡ false
        → ((i : ℕ) → i < id → is_some (w.task i) ≡ true)
        → v.env ≡ record (w.env) {
          task = update w.task id (some (born id client_fn fd));
          task_count = w.task_count + 1;
        }
        → r ≡ blocking rounds accepts listenfd v
        → Accepted w rounds client_fn listenfd r (pos fd)
    -- No slot is free: the next `co_accept` follows at once, and nothing refers to the descriptor.
    ignored :
        (fd : ℕ)
        → ((i : ℕ) → i < nr_tasks → is_some (w.task i) ≡ true)
        → r ≡ blocking rounds accepts listenfd w
        → Accepted w rounds client_fn listenfd r (pos fd)
    no_memory :
        (fd : ℕ)
        → (p.calloc w.kernel).0 ≡ false
        → r ≡ fault
        → Accepted w rounds client_fn listenfd r (pos fd)

  -- A connection gets a coroutine in the first free slot, and `my_accept` goes on to accept. Where the
  -- table is full it goes on as well, with the connection neither served nor closed. A failed
  -- `co_accept` ends the process.
  pub accepted-Accepted :
      (rounds client_fn listenfd : ℕ) (clifd : ℤ) (w : World p)
      → IsValid w.env
      → Accepted w rounds client_fn listenfd (accepted rounds client_fn listenfd clifd w) clifd
  unfolding accepted
  accepted-Accepted rounds client_fn listenfd (negsuc n) w h = failed n refl
  accepted-Accepted rounds client_fn listenfd (pos fd) w h =
      elim (co_create-Created w client_fn fd h) [
        | Create.full all e ↦ rw e (ignored fd all refl)
        | Create.no_memory c e ↦ rw e (no_memory fd c refl)
        | Create.made id v lt free first e env_eq valid ↦
            rw e (served fd id v lt free first env_eq refl)
      ]

  -- `co_create` leaves the current coroutine as it is.
  co_create-current :
      (co_fn arg : ℕ) (w : World p)
      → IsValid w.env
      → Ends (λ x v. v.task v.current ≡ w.task w.current) (co_create co_fn arg w)
  co_create-current co_fn arg w h =
      let P = λ (x : ℤ × Option ℕ) (v : World p). v.task v.current ≡ w.task w.current in
      elim (co_create-Created w co_fn arg h) [
        | Create.full all e ↦ rw e (Ends-ok P refl)
        | Create.no_memory c e ↦ rw e (Ends-fault P)
        | Create.made id v lt free first e env_eq valid ↦ rw e (
            Ends-ok P (
              ap (λ (x : ThreadEnv p). x.task x.current) env_eq
              ∙ update-ne w.task id _ w.current (λ x.
                absurd (ground (arith, free, h.current_live, ap (λ i. is_some (w.task i)) x)))))
      ]

  -- A call of `co_create` and then another one, by the current coroutine.
  creates_then-IsSafe :
      (c : Control) (rounds co_fn arg : ℕ) (req : Request) (w : World p)
      → InUser c
      → IsSafe c w
      → ((v : World p) → v.task v.current ≡ w.task w.current → Allowed v req)
      → Ends (λ d v. IsSafe d v) (and_then (co_create co_fn arg w) (λ _. perform rounds req))
  unfolding perform
  creates_then-IsSafe c rounds co_fn arg req w u s allowed =
      Ends-bind (λ x v. IsSafe (returns_int (x.0)) v × (v.task v.current ≡ w.task w.current))
        (λ d v. IsSafe d v) (co_create co_fn arg w) (λ _. perform rounds req)
        (λ x v e. (
          Reach-IsSafe s (step here (call rounds (creates co_fn arg) u tt (performed x v e))),
          co_create-current co_fn arg w s.live.linked.valid x v e,
        ))
        λ x v (safe, same) d z q.
          Reach-IsSafe safe (step here (call rounds req (with_int (x.0)) (allowed v same) q))
    where
      performed :
          (x : ℤ × Option ℕ) (v : World p)
          → co_create co_fn arg w ≡ ok x v
          → perform rounds (creates co_fn arg) w ≡ ok (returns_int (x.0)) v
      performed x v e = rw e

  -- `main` of the echo server, from a safe point behind `listen` on.
  pub serve-IsSafe :
      (rounds accept_fn arg : ℕ) (w : World p)
      → IsSafe returns_nothing w
      → Ends (λ d v. IsSafe d v) (serve rounds accept_fn arg w)
  unfolding serve perform
  serve-IsSafe rounds accept_fn arg w s =
      creates_then-IsSafe returns_nothing rounds accept_fn arg loops w with_nothing s (λ v same. tt)

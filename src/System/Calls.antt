-- ===== src/System/Calls.antt =====
-- The calls of a coroutine, and what goes on behind `schedule`, keep the invariant.
use libco_lite.Base.{
  ℕ, ◌<◌, ◌≡◌, refl, sym, subst, inl, inr, ℤ, is_negative, true, false, Option, some, arith, update,
  update_self, Option-cases,
}
use libco_lite.Platform.{Platform}
use libco_lite.Thread.{max_fd, Call, sleeping, joining, waiting, Task, World, Run}
use libco_lite.Thread.Returns.{Ends, Ends-ok, Ends-fault, Ends-Keeps}
use libco_lite.Thread.Valid.{IsValid}
use libco_lite.Sched.{schedule, co_sleep}
use libco_lite.Sched.Schedule.{schedule-Scheduled}
use libco_lite.Sched.Wake.{reading}
use libco_lite.Sched.Sleep.{slept, co_sleep-cases}
use libco_lite.Coroutine.{Control, goes, co_create, co_join}
use libco_lite.Coroutine.Create.{Created, full, no_memory, made, co_create-Created}
use libco_lite.Coroutine.Join.{Joined, missing, freed, waits, co_join-Joined}
use libco_lite.Syscall.{event_of, blocking}
use libco_lite.Syscall.Queue.{Blocked, refused, parked, blocking-Blocked}
use libco_lite.Syscall.Add.{Added-Fields, Added}
use libco_lite.System.Linked.{IsLinked, IsLive, IsSafe, Scheduled-IsSafe}
use libco_lite.System.Preserve.{
  put-IsLinked, put-IsLive, born-IsLive, freed-IsLive, insert-IsLinked,
}

module _ {p : Platform} where
  pub co_create-IsLive :
      (co_fn arg : ℕ) (w : World p)
      → IsLive w.env
      → Ends (λ _ v. IsLive v.env) (co_create co_fn arg w)
  co_create-IsLive co_fn arg w l = by_outcome (co_create-Created w co_fn arg l.linked.valid)
    where
      by_outcome : {r : Run p (ℤ × Option ℕ)} → Created w co_fn arg r → Ends (λ _ v. IsLive v.env) r
      by_outcome (full all e) = rw e (Ends-ok (λ _ v. IsLive v.env) l)
      by_outcome (no_memory c e) = rw e (Ends-fault (λ _ v. IsLive v.env))
      by_outcome (made id v h free before e env_eq valid) = rw e (
          Ends-ok (λ _ u. IsLive u.env)
            (subst (λ x. IsLive x) (sym env_eq)
              (born-IsLive w.env id co_fn arg l free (subst (λ x. IsValid x) env_eq valid))))

  pub co_join-IsSafe :
      (rounds cid : ℕ) (w : World p) → IsLive w.env → Ends IsSafe (co_join rounds cid w)
  co_join-IsSafe rounds cid w l = by_outcome (co_join-Joined rounds w cid l.linked.valid l.alive)
    where
      by_outcome : {r : Run p Control} → Joined w cid r → Ends IsSafe r
      by_outcome (missing o e) = rw e (Ends-fault IsSafe)
      by_outcome (freed t v o s e env_eq k valid) = rw e (
          Ends-ok IsSafe (record {
            live =
                subst (λ x. IsLive x) (sym env_eq)
                  (freed-IsLive w.env cid t l o s (subst (λ x. IsValid x) env_eq valid));
            returns = λ x. cc;
          }))
      by_outcome {r} (waits t o s k) = Ends-Keeps _ IsSafe r k λ c v (f, e, sch).
          subst (λ x. IsSafe x v) (sym e)
            (Scheduled-IsSafe w v (joining cid) f l.linked (λ x. cc) sch)

  pub co_sleep-IsSafe :
      (rounds seconds : ℕ) (w : World p)
      → IsLive w.env
      → Ends (λ f v. IsSafe (goes f) v) (co_sleep rounds seconds w)
  co_sleep-IsSafe rounds seconds w l = elim (Option-cases (w.task w.current)) [
    | inl o ↦ absurd (ground (arith, l.linked.valid.current_live))
    | inr (t, o) ↦ elim (co_sleep-cases rounds seconds w t o) [
      | inl over ↦ rw over (Ends-fault (λ f v. IsSafe (goes f) v))
      | inr e ↦ rw e (
          let linked = put-IsLinked w.env t (slept (reading p w.kernel) seconds t) l o refl refl in
          Ends-Keeps _ (λ f v. IsSafe (goes f) v) (schedule rounds sleeping _)
            (schedule-Scheduled rounds _ sleeping linked.valid)
            (λ f v s. Scheduled-IsSafe _ v sleeping f linked (λ x. cc) s))
    ]
  ]

  -- Where `add_queue` has failed, and where it has not.
  Added-IsLive :
      (w v : World p) (fd events : ℕ) (ret : ℤ)
      → is_negative ret ≡ true
      → IsLive w.env
      → Added w fd events ret v
      → IsLive v.env
  Added-IsLive w v fd events ret n l a =
      subst (λ x. IsLive x) (sym a.env)
        (rw n (
          put-IsLive w.env a.before a.after l a.here (ground (arith, Added-Fields a))
            (ground (arith, Added-Fields a)) (λ x. ground (arith, Added-Fields a))))

  Added-IsLinked :
      (w v : World p) (fd events : ℕ) (ret : ℤ)
      → is_negative ret ≡ false
      → IsLive w.env
      → Added w fd events ret v
      → IsLinked v.env
  Added-IsLinked w v fd events ret n l a =
      let put =
        put-IsLive w.env a.before a.after l a.here (ground (arith, Added-Fields a))
          (ground (arith, Added-Fields a)) (λ x. ground (arith, Added-Fields a)) in
      subst (λ x. IsLinked x) (sym a.env)
        (rw n (
          insert-IsLinked (record (w.env) { task = update w.task w.current (some a.after) }) fd
            a.after put (update_self w.task w.current (some a.after))
            (ground (arith, Added-Fields a))))

  pub blocking-IsSafe :
      (rounds : ℕ) (call : Call) (fd : ℕ) (w : World p)
      → IsLive w.env
      → fd < max_fd
      → ((t : Task) → w.task w.current ≡ some t → t.fds_idx < max_fd)
      → Ends IsSafe (blocking rounds call fd w)
  blocking-IsSafe rounds call fd w l h room = elim (Option-cases (w.task w.current)) [
    | inl o ↦ absurd (ground (arith, l.linked.valid.current_live))
    | inr (t, o) ↦ by_outcome (blocking-Blocked rounds call fd w t l.linked.valid h o (room t o))
  ]
    where
      by_outcome : {r : Run p Control} → Blocked w call fd r → Ends IsSafe r
      by_outcome (refused ret v n a e) = rw e (
          Ends-ok IsSafe
            (record { live = Added-IsLive w v fd (event_of call) ret n l a; returns = λ x. cc }))
      by_outcome {r} (parked ret u n a k) = Ends-Keeps _ IsSafe r k λ c v (f, e, sch).
          subst (λ x. IsSafe x v) (sym e)
            (Scheduled-IsSafe u v (waiting call fd) f
              (Added-IsLinked w u fd (event_of call) ret n l a) (λ x. cc) sch)

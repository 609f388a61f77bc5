-- ===== src/Threads/Apart.antt =====
-- Threads whose ids differ modulo MAX_THREAD_NUM do not disturb one another.
use libco_lite.Base.{
  ℕ, ◌≡◌, ◌≢◌, refl, sym, ap, subst, ◌∙◌, ◌⊎◌, inl, inr, Bool, true, none, some, arith, ◌==◌,
  update_self, update-ne, Bool-cases,
}
use libco_lite.Platform.{Platform}
use libco_lite.Thread.{ThreadEnv, World}
use libco_lite.Coroutine.{Process, returns_nothing}
use libco_lite.Coroutine.Environment.{Got, kept, made, co_get_thread_env-Got}
use libco_lite.System.{Step, Reach, here, step, outside}
use libco_lite.System.Linked.{IsLive, IsSafe}
use libco_lite.System.Safety.{Step-IsSafe}
use libco_lite.Threads.{
  Threads, place, in_thread, stored, Moves, moves, Interleaved, none_yet, and_then, Distinct,
}
use libco_lite.Threads.Fresh.{fresh_env-IsLive}

module _ {p : Platform} where
  -- Another thread's step leaves the place of a thread and its control as they are.
  Moves-others :
      {s : Threads p} (tid other : ℕ) {v : Threads p}
      → Moves s other v
      → other ≢ tid
      → place other ≢ place tid
      → (v.process.g_thread_env_arr (place tid) ≡ s.process.g_thread_env_arr (place tid))
        × (v.control tid ≡ s.control tid)
  Moves-others {s} tid other {v} (moves {e} {s'} {c} {w} got st) ne apart = (
    update-ne s'.g_thread_env_arr (place other) (some w.env) (place tid) apart
        ∙ by_case (co_get_thread_env-Got other s.process e s' got),
    update-ne s.control other c tid ne,
  )
    where
      by_case :
          Got other s.process e s'
          → s'.g_thread_env_arr (place tid) ≡ s.process.g_thread_env_arr (place tid)
      by_case (kept h same) = ap (λ (x : Process p). x.g_thread_env_arr (place tid)) same
      by_case (made epfd h f others) = others (place tid) apart

  -- A thread with an environment steps on it.
  Moves-own :
      {s : Threads p} (tid : ℕ) (e : ThreadEnv p) {v : Threads p}
      → Moves s tid v
      → s.process.g_thread_env_arr (place tid) ≡ some e
      → (w : World p) × (v.process.g_thread_env_arr (place tid) ≡ some w.env)
        × (v.process.kernel ≡ w.kernel)
        × Step (s.control tid) (in_thread e s.process) (v.control tid) w
  Moves-own {s} tid e {v} (moves {e = x} {s'} {c} {w} got st) h = (
    w,
    update_self s'.g_thread_env_arr (place tid) (some w.env),
    refl,
    subst (λ d. Step (s.control tid) (in_thread e s.process) d w)
        (sym (update_self s.control tid c))
        (by_case (co_get_thread_env-Got tid s.process x s' got)),
  )
    where
      by_case : Got tid s.process x s' → Step (s.control tid) (in_thread e s.process) c w
      by_case (kept k same) =
          let xe : x ≡ e = ground (arith, k, h) in
          subst (λ (u : World p). Step (s.control tid) u c w) (rw (xe, same) refl) st
      by_case (made epfd k f others) = absurd (ground (arith, k, h))

  -- In a process whose threads have ids that differ modulo MAX_THREAD_NUM, the steps of all threads,
  -- in any order, are to a thread that has its environment a run of its own on that environment, in
  -- which the kernel also goes on by itself.
  pub Interleaved-Reach :
      {live : ℕ → Bool} {s v : Threads p} (tid : ℕ) (e : ThreadEnv p)
      → Distinct live
      → live tid ≡ true
      → s.process.g_thread_env_arr (place tid) ≡ some e
      → Interleaved live s v
      → (e' : ThreadEnv p) × (v.process.g_thread_env_arr (place tid) ≡ some e')
        × Reach (s.control tid) (in_thread e s.process) (v.control tid) (in_thread e' v.process)
  Interleaved-Reach tid e d l h none_yet = (e, h, here)
  Interleaved-Reach {s} {v} tid e d l h (and_then {u} other r l' m) =
      let (e', h', run) = Interleaved-Reach tid e d l h r in
      elim (Bool-cases (other == tid)) [
        | inl same ↦
            let own : other ≡ tid = ground arith in
            let (w, stored, kernel, st) = Moves-own tid e' (subst (λ i. Moves u i v) own m) h' in
            (
              w.env,
              stored,
              subst
                  (λ k.
                    Reach (s.control tid) (in_thread e s.process) (v.control tid)
                      (record { env = w.env; kernel = k }))
                  (sym kernel) (step run st),
            )
        | inr differ ↦
            let ne : other ≢ tid = ground arith in
            let (same, control) = Moves-others tid other m ne (λ x. ne (d other tid l' l x)) in
            (
              e',
              same ∙ h',
              subst (λ c. Reach (s.control tid) (in_thread e s.process) c (in_thread e' v.process))
                  (sym control) (outside run v.process.kernel),
            )
      ]

  -- A thread that has not called yet, with control in its code; or one whose environment is safe.
  abbrev pub IsSafeIn : ℕ → Threads p → Type 0
  IsSafeIn tid s =
      ((s.process.g_thread_env_arr (place tid) ≡ none) × (s.control tid ≡ returns_nothing))
      ⊎ ((e : ThreadEnv p) × (s.process.g_thread_env_arr (place tid) ≡ some e)
          × IsSafe (s.control tid) (in_thread e s.process))

  -- The thread's own step, the first one too.
  Moves-IsSafeIn :
      {s : Threads p} (tid : ℕ) {v : Threads p} → Moves s tid v → IsSafeIn tid s → IsSafeIn tid v
  Moves-IsSafeIn {s} tid {v} (moves {e} {s'} {c} {w} got st) safe = inr (
    w.env,
    update_self s'.g_thread_env_arr (place tid) (some w.env),
    subst (λ d. IsSafe d w) (sym (update_self s.control tid c))
        (Step-IsSafe st (before (co_get_thread_env-Got tid s.process e s' got) safe)),
  )
    where
      before : Got tid s.process e s' → IsSafeIn tid s → IsSafe (s.control tid) (in_thread e s')
      before (made epfd h f others) (inl (k, c)) = record {
        live = subst (λ x. IsLive x) (sym f) (fresh_env-IsLive epfd);
        returns = λ x. cc;
      }
      before (made epfd h f others) (inr (x, k, q)) = absurd (ground (arith, h, k))
      before (kept h same) (inl (k, c)) = absurd (ground (arith, h, k))
      before (kept h same) (inr (x, k, q)) =
          let xe : x ≡ e = ground (arith, h, k) in
          record { live = subst (λ y. IsLive y) xe q.live; returns = q.returns }

  -- In a process whose threads have ids that differ modulo MAX_THREAD_NUM, whatever the order of
  -- their steps: if at the start every thread has a safe environment, or has not called the library
  -- yet and is in its own code, then this is so at the end.
  pub Interleaved-IsSafeIn :
      {live : ℕ → Bool} {s v : Threads p}
      → Distinct live
      → ((tid : ℕ) → live tid ≡ true → IsSafeIn tid s)
      → Interleaved live s v
      → (tid : ℕ) → live tid ≡ true
      → IsSafeIn tid v
  Interleaved-IsSafeIn d safe none_yet tid l = safe tid l
  Interleaved-IsSafeIn {live} {s} {v} d safe (and_then {u} other r l' m) tid l =
      elim (Bool-cases (other == tid)) [
        | inl same ↦
            let own : other ≡ tid = ground arith in
            subst (λ i. IsSafeIn i v) own
              (Moves-IsSafeIn other m (Interleaved-IsSafeIn d safe r other l'))
        | inr differ ↦
            let ne : other ≢ tid = ground arith in
            let (same, control) = Moves-others tid other m ne (λ x. ne (d other tid l' l x)) in
            elim (Interleaved-IsSafeIn d safe r tid l) [
              | inl (h, c) ↦ inl (same ∙ h, control ∙ c)
              | inr (e, h, q) ↦ inr (
                e,
                same ∙ h,
                record { live = q.live; returns = λ x. q.returns (sym control ∙ x) },
              )
            ]
      ]

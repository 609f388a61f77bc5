-- ===== src/Coroutine/Environment.antt =====
-- The environment of a thread (src/coroutine.c, `co_get_thread_env`).
use libco_lite.Base.{
  ℕ, ◌%◌, ◌≡◌, ◌≢◌, refl, true, Option, none, some, arith, Bool-cases, sym, ap, ◌∙◌, update,
  update_self, update-ne, Option-cases, inl, inr,
}
use libco_lite.Platform.{Platform}
use libco_lite.Thread.{ThreadEnv}
use libco_lite.Thread.Valid.{IsValid, occupied}
use libco_lite.Coroutine.{max_thread_num, Process, fresh_env, co_get_thread_env}

-- An environment for a thread id, against the process before the call.
pub record Obtained {p : Platform} (tid : ℕ) (s : Process p) (e : ThreadEnv p) (s' : Process p)
    : Type 0 where
  pub valid : IsValid e
  pub stored : s'.g_thread_env_arr (tid % max_thread_num) ≡ some e
  pub others : (i : ℕ) → tid % max_thread_num ≢ i → s'.g_thread_env_arr i ≡ s.g_thread_env_arr i
  pub again :
      (other : ℕ)
      → other % max_thread_num ≡ tid % max_thread_num
      → co_get_thread_env other s' ≡ some (e, s')

module _ {p : Platform} where
  pub fresh_env-IsValid : (epfd : ℕ) → IsValid (fresh_env {p = p} epfd)
  unfolding occupied
  fresh_env-IsValid epfd = record {
    current_in = omega arith;
    current_live = refl;
    ids = λ i t e. ground arith;
    in_range = λ i h. ground arith;
    counted = refl;
  }

  pub found :
      (tid : ℕ) (s : Process p) (e : ThreadEnv p)
      → s.g_thread_env_arr (tid % max_thread_num) ≡ some e
      → co_get_thread_env tid s ≡ some (e, s)
  unfolding co_get_thread_env
  found tid s e h = rw (co_get_thread_env, h)

  -- `co_get_thread_env` in a process of well-formed environments, while `calloc` gives memory: it
  -- returns a well-formed environment, which is the one in the place of the array for this thread
  -- id; all other places are as they were; and a later call, by this thread or by any whose id
  -- agrees modulo MAX_THREAD_NUM, returns the same environment and changes nothing.
  pub co_get_thread_env-Obtained :
      (tid : ℕ) (s : Process p)
      → ((i : ℕ) (e : ThreadEnv p) → s.g_thread_env_arr i ≡ some e → IsValid e)
      → ((k : p.Kernel) → (p.calloc k).0 ≡ true)
      → (e : ThreadEnv p) × (s' : Process p) × (co_get_thread_env tid s ≡ some (e, s'))
        × Obtained tid s e s'
  unfolding co_get_thread_env
  co_get_thread_env-Obtained tid s valid memory =
      let slot = tid % max_thread_num in
      elim (Option-cases (s.g_thread_env_arr slot)) [
        | inr (e, h) ↦ (
          e,
          s,
          rw (co_get_thread_env, h),
          record {
            valid = valid slot e h;
            stored = h;
            others = λ i d. refl;
            again = λ other same. found other s e (rw same h);
          },
        )
        | inl h ↦
            let (got, k) = p.calloc s.kernel in
            let (got', k') = p.calloc k in
            let (epfd, k'') = p.epoll_create k' in
            let e : ThreadEnv p = fresh_env epfd in
            let s' : Process p = record {
              g_thread_env_arr = update s.g_thread_env_arr slot (some e);
              kernel = k'';
            } in
            let stored = update_self s.g_thread_env_arr slot (some e) in
            (
              e,
              s',
              rw (co_get_thread_env, h, memory s.kernel, memory k),
              record {
                valid = fresh_env-IsValid epfd;
                stored = stored;
                others = λ i d. update-ne s.g_thread_env_arr slot (some e) i d;
                again = λ other same. found other s' e (rw same stored);
              },
            )
      ]

  -- What `co_get_thread_env` returns, where it returns: the environment in the thread's place, or a
  -- fresh one where the place is empty; no other place changes.
  pub data Got (tid : ℕ) (s : Process p) (e : ThreadEnv p) (s' : Process p) : Type 0 where
    kept : s.g_thread_env_arr (tid % max_thread_num) ≡ some e → s' ≡ s → Got tid s e s'
    made :
        (epfd : ℕ)
        → s.g_thread_env_arr (tid % max_thread_num) ≡ none
        → e ≡ fresh_env epfd
        → ((i : ℕ) → tid % max_thread_num ≢ i → s'.g_thread_env_arr i ≡ s.g_thread_env_arr i)
        → Got tid s e s'

  pub co_get_thread_env-Got :
      (tid : ℕ) (s : Process p) (e : ThreadEnv p) (s' : Process p)
      → co_get_thread_env tid s ≡ some (e, s')
      → Got tid s e s'
  unfolding co_get_thread_env
  co_get_thread_env-Got tid s e s' got = elim (Option-cases (s.g_thread_env_arr slot)) [
    | inr (x, h) ↦
        let (xe, same) = same_pair x e s s' (found tid s x h) got in
        kept (h ∙ ap some xe) (sym same)
    | inl h ↦ elim (Bool-cases (p.calloc s.kernel).0) [
      | inr a ↦
          let fails : co_get_thread_env tid s ≡ none = rw (co_get_thread_env, h, a) refl in
          absurd (ground (arith, fails, got))
      | inl a ↦ elim (Bool-cases (p.calloc (p.calloc s.kernel).1).0) [
        | inr b ↦
            let fails : co_get_thread_env tid s ≡ none = rw (co_get_thread_env, h, a, b) refl in
            absurd (ground (arith, fails, got))
        | inl b ↦
            let (epfd, k) = p.epoll_create (p.calloc (p.calloc s.kernel).1).1 in
            let fresh : ThreadEnv p = fresh_env epfd in
            let s'' : Process p = record {
              g_thread_env_arr = update s.g_thread_env_arr slot (some fresh);
              kernel = k;
            } in
            let gives : co_get_thread_env tid s ≡ some (fresh, s'') =
              rw (co_get_thread_env, h, a, b) refl in
            let (ef, same) = same_pair fresh e s'' s' gives got in
            made epfd h (sym ef) (λ i d.
              ap (λ (x : Process p). x.g_thread_env_arr i) (sym same)
              ∙ update-ne s.g_thread_env_arr slot (some fresh) i d)
      ]
    ]
  ]
    where
      slot : ℕ
      slot = tid % max_thread_num

      same_pair :
          {r : Option (ThreadEnv p × Process p)} (x y : ThreadEnv p) (u v : Process p)
          → r ≡ some (x, u)
          → r ≡ some (y, v)
          → (x ≡ y) × (u ≡ v)
      same_pair x y u v a b = (cc, cc)

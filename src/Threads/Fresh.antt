-- ===== src/Threads/Fresh.antt =====
-- The environment that the first call in a thread makes (src/coroutine.c, `co_get_thread_env`).
use libco_lite.Base.{ℕ, refl, arith}
use libco_lite.Platform.{Platform}
use libco_lite.Coroutine.{fresh_env}
use libco_lite.Coroutine.Environment.{fresh_env-IsValid}
use libco_lite.System.Linked.{IsLive}

module _ {p : Platform} where
  pub fresh_env-IsLive : (epfd : ℕ) → IsLive (fresh_env {p = p} epfd)
  fresh_env-IsLive epfd = record {
    linked = record {
      valid = fresh_env-IsValid epfd;
      ended = λ j t e f. absurd (ground arith);
      queued = λ fd j h. absurd (ground (arith, p.contents_init fd));
      once = λ fd g j a b. absurd (ground (arith, p.contents_init fd));
      single = λ fd j. rw (p.contents_init fd) refl;
    };
    alive = λ t e f. ground arith;
    off = λ fd. rw (p.contents_init fd) refl;
  }

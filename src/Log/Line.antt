-- ===== src/Log/Line.antt =====
-- A log line: what PRINT (include/logger.h) puts around the time stamp of `now` (src/util.c).
use libco_lite.Base.{
  ℕ, zero, suc, ◌+◌, ◌-◌, ◌/◌, ◌≤◌, ◌<◌, ◌≡◌, refl, ap, ◌∙◌, true, some, List, [], ◌∷◌, ◌++◌, arith,
  length, update, update_self, update-ne,
}
use libco_lite.Platform.{Platform, Timeval}
use libco_lite.Server.{Buffer, put_bytes}
use libco_lite.Server.Lines.{put_bytes-append}
use libco_lite.Chars.{
  taken, c_string, is_text, taken-put_bytes, taken-same, c_string_lem, until_nul-text,
}
use libco_lite.Log.{
  Tm, take, stamp, snprintf, time_str_size, erase_line, reset, heading, now, print,
}
use libco_lite.Log.Stamp.{IsTm, read_fields, is_text-stamp, length-stamp, read-stamp}

take-short : (n : ℕ) (cs : List ℕ) → length cs ≤ n → take n cs ≡ cs
take-short zero [] h = refl
take-short zero (c ∷ cs) h = absurd (omega arith)
take-short (suc n) [] h = refl
take-short (suc n) (c ∷ cs) h = ap (λ l. c ∷ l) (take-short n cs (omega arith))

-- A text without a NUL byte that is shorter than the buffer is read back by `%s`.
snprintf-c_string :
    (size : ℕ) (cs : List ℕ) (buf : Buffer)
    → is_text cs ≡ true
    → length cs < size
    → c_string size 0 (snprintf size cs buf) ≡ some cs
unfolding put_bytes
snprintf-c_string size cs buf t h =
    let short = take-short (size - 1) cs (omega arith) in
    let b = put_bytes buf 0 cs in
    let split : snprintf size cs buf ≡ update b (0 + length cs) 0 =
      rw short (put_bytes-append buf 0 cs (0 ∷ [])) in
    let text : taken (length cs) 0 (update b (0 + length cs) 0) ≡ cs =
      taken-same (length cs) 0 _ b (λ j x y. update-ne b (0 + length cs) 0 j (omega arith))
      ∙ taken-put_bytes cs 0 buf in
    rw split (
      c_string_lem cs size 0 _ h text (update_self b (0 + length cs) 0)
      ∙ ap some (until_nul-text cs t))

module _ (p : Platform) (localtime_r : ℕ → Tm) where
  -- With a time of day and a broken-down time in their ranges, before the year 10000: a log line is made,
  -- whatever `time_str` held before. Behind the colour and a bracket it has a time stamp of 23 bytes,
  -- which says year, month, day, hour, minute, second and millisecond, and then the rest.
  pub print_lem :
      (type color file function message : List ℕ) (line : ℕ) (time_str : Buffer) (k : p.Kernel)
      (t : Timeval)
      → (p.gettimeofday k).0 ≡ some t
      → t.tv_usec < 1000000
      → IsTm (localtime_r t.tv_sec)
      → let tm = localtime_r t.tv_sec in
        (text : List ℕ) × (print p localtime_r type color file function message line time_str k ≡ (
          some (
              erase_line
              ++ (color ++ 91 ∷ (text ++ (heading type file function line ++ (reset ++ message))))),
          (p.gettimeofday k).1,
        ))
        × (length text ≡ 23)
        × (read_fields (4 ∷ 2 ∷ 2 ∷ 2 ∷ 2 ∷ 2 ∷ 3 ∷ []) text
            ≡ (tm.tm_year + 1900)
              ∷ (tm.tm_mon + 1)
              ∷ tm.tm_mday
              ∷ tm.tm_hour
              ∷ tm.tm_min
              ∷ tm.tm_sec
              ∷ (t.tv_usec / 1000)
              ∷ [])
  unfolding print now
  print_lem type color file function message line time_str k t clock us h =
      let tm = localtime_r t.tv_sec in
      let n = length-stamp t tm us h in
      let read_back =
        snprintf-c_string time_str_size (stamp t tm) time_str (is_text-stamp t tm)
          (omega (arith, n)) in
      (
        stamp t tm,
        rw (print, now, clock, read_back) (rw (now, clock) refl),
        n,
        read-stamp t tm us h,
      )

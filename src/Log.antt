-- ===== src/Log.antt =====
-- src/util.c and include/logger.h: the time stamp of a log line, and the line. `localtime_r` is a
-- parameter. Fields of the broken-down time are taken as not negative, and numbers as those of an
-- `int`, which has at most ten digits.
pub mod Numbers
pub mod Stamp
pub mod Line
mod Examples
use libco_lite.Base.{
  ℕ, zero, suc, ◌+◌, ◌-◌, ◌/◌, ◌%◌, Option, none, some, List, [], ◌∷◌, ◌++◌, ltb, if◌then◌else◌,
  length,
}
use libco_lite.Platform.{Platform, Timeval}
use libco_lite.Server.{Buffer, put_bytes}
use libco_lite.Chars.{c_string}

-- `struct tm`, of which the months count from 0 and the years from 1900.
pub record Tm : Type 0 where
  pub tm_sec : ℕ
  pub tm_min : ℕ
  pub tm_hour : ℕ
  pub tm_mday : ℕ
  pub tm_mon : ℕ
  pub tm_year : ℕ

-- The digits that printf prints of an `int`; the count bounds them.
unfoldable pub decimal : (digits n : ℕ) → List ℕ
decimal zero n = []
decimal (suc d) n =
    let rest = decimal d (n / 10) in if ltb n 10 then (48 + n) ∷ [] else rest ++ (48 + n % 10) ∷ []

abbrev pub zeros : ℕ → List ℕ
zeros zero = []
zeros (suc n) = 48 ∷ zeros n

-- `%d`, and `%0<width>d`.
abbrev pub number : ℕ → List ℕ
number n = decimal 10 n

unfoldable pub padded : (width n : ℕ) → List ℕ
padded width n = zeros (width - length (number n)) ++ number n

abbrev pub take : ℕ → List ℕ → List ℕ
take zero cs = []
take (suc n) [] = []
take (suc n) (c ∷ cs) = c ∷ take n cs

-- "%04d-%02d-%02d %02d:%02d:%02d.%03d"
unfoldable pub stamp : Timeval → Tm → List ℕ
stamp t tm =
    padded 4 (tm.tm_year + 1900)
    ++ 45
      ∷ (padded 2 (tm.tm_mon + 1)
          ++ 45
            ∷ (padded 2 tm.tm_mday
                ++ 32
                  ∷ (padded 2 tm.tm_hour
                      ++ 58
                        ∷ (padded 2 tm.tm_min
                            ++ 58 ∷ (padded 2 tm.tm_sec ++ 46 ∷ padded 3 (t.tv_usec / 1000))))))

-- `snprintf(buf, size, ...)` of a text: as much of it as `size` leaves room for, and a NUL byte.
abbrev pub snprintf : (size : ℕ) → List ℕ → Buffer → Buffer
snprintf size text buf = put_bytes buf 0 (take (size - 1) text ++ 0 ∷ [])

abbrev pub time_str_size : ℕ
time_str_size = 64

-- The bytes of the escape sequences, with the digits of the colours.
abbrev pub erase_line : List ℕ
erase_line = 27 ∷ 91 ∷ 75 ∷ []

abbrev pub reset : List ℕ
reset = 27 ∷ 91 ∷ 48 ∷ 109 ∷ []

-- "] [%s] [%s:%d][%s] - ", behind the time stamp.
unfoldable pub heading : (type file function : List ℕ) (line : ℕ) → List ℕ
heading type file function line =
    93 ∷ 32 ∷ 91 ∷ type
    ++ 93 ∷ 32 ∷ 91 ∷ file
    ++ 58 ∷ number line
    ++ 93 ∷ 91 ∷ function
    ++ 93 ∷ 32 ∷ 45 ∷ 32 ∷ []

module _ (p : Platform) (localtime_r : ℕ → Tm) where
  -- `now`; `none` where the clock fails, since the code then reads a `struct timeval` that nothing has
  -- written.
  unfoldable pub now : Buffer → p.Kernel → Option Buffer × p.Kernel
  unfolding stamp
  now time_str k =
      let (t, k') = p.gettimeofday k in
      elim t [
        | none ↦ (none, k')
        | some t ↦ (some (snprintf time_str_size (stamp t (localtime_r t.tv_sec)) time_str), k')
      ]

  -- PRINT: what goes to the stream. `message` is what printf makes of the format and its arguments;
  -- `time_str` holds anything before. `none` where `%s` would read past it.
  unfoldable pub print :
      (type color file function message : List ℕ) (line : ℕ)
      → Buffer
      → p.Kernel
      → Option (List ℕ) × p.Kernel
  unfolding now
  print type color file function message line time_str k =
      let (written, k') = now time_str k in
      elim written [
        | none ↦ (none, k')
        | some buf ↦ elim (c_string time_str_size 0 buf) [
          | none ↦ (none, k')
          | some text ↦ (
            some (
                erase_line
                ++ (color
                    ++ 91 ∷ (text ++ (heading type file function line ++ (reset ++ message))))),
            k',
          )
        ]
      ]

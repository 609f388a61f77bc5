-- ===== src/Log/Stamp.antt =====
-- The time stamp of `now` (src/util.c): its length, and what it says.
use libco_lite.Base.{
  ℕ, zero, suc, ◌+◌, ◌/◌, ◌^◌, ◌≤◌, ◌<◌, ◌≡◌, refl, sym, ap, ◌∙◌, true, List, [], ◌∷◌, ◌++◌, arith,
  length,
}
use libco_lite.Platform.{Timeval}
use libco_lite.Server.Lines.{length-append}
use libco_lite.Chars.{is_text}
use libco_lite.Log.{Tm, padded, take, stamp}
use libco_lite.Log.Numbers.{value, length-padded, value-padded, is_text-padded, is_text-append}

-- The ranges that `localtime_r` keeps to, in the years before 10000; a minute may have 61 seconds.
pub record IsTm (tm : Tm) : Type 0 where
  pub sec : tm.tm_sec ≤ 60
  pub min : tm.tm_min < 60
  pub hour : tm.tm_hour < 24
  pub mday : tm.tm_mday ≤ 31
  pub mon : tm.tm_mon < 12
  pub year : tm.tm_year < 8100

abbrev pub drop : ℕ → List ℕ → List ℕ
drop zero cs = cs
drop (suc n) [] = []
drop (suc n) (c ∷ cs) = drop n cs

-- The numbers in a text, of the widths given, with one byte between two of them.
unfoldable pub read_fields : List ℕ → List ℕ → List ℕ
read_fields [] cs = []
read_fields (w ∷ ws) cs = value (take w cs) ∷ read_fields ws (drop (suc w) cs)

pub take-append : (xs ys : List ℕ) → take (length xs) (xs ++ ys) ≡ xs
take-append [] ys = refl
take-append (x ∷ xs) ys = ap (λ l. x ∷ l) (take-append xs ys)

pub take-all : (xs : List ℕ) → take (length xs) xs ≡ xs
take-all [] = refl
take-all (x ∷ xs) = ap (λ l. x ∷ l) (take-all xs)

pub drop-append : (xs ys : List ℕ) → drop (length xs) (xs ++ ys) ≡ ys
drop-append [] ys = refl
drop-append (x ∷ xs) ys = drop-append xs ys

drop-field : (xs ys : List ℕ) (c : ℕ) → drop (suc (length xs)) (xs ++ c ∷ ys) ≡ ys
drop-field [] ys c = refl
drop-field (x ∷ xs) ys c = drop-field xs ys c

module _ (w n sep : ℕ) (rest : List ℕ) where
  length-field :
      n < 10 ^ suc w → length (padded (suc w) n ++ sep ∷ rest) ≡ suc w + suc (length rest)
  length-field h = omega (arith, length-append (padded (suc w) n) (sep ∷ rest), length-padded w n h)

  is_text-field : is_text (sep ∷ rest) ≡ true → is_text (padded (suc w) n ++ sep ∷ rest) ≡ true
  is_text-field h = is_text-append (padded (suc w) n) (sep ∷ rest) (is_text-padded (suc w) n) h

  read-field :
      (ws : List ℕ)
      → n < 10 ^ suc w
      → n < 10 ^ 10
      → read_fields (suc w ∷ ws) (padded (suc w) n ++ sep ∷ rest) ≡ n ∷ read_fields ws rest
  unfolding read_fields
  read-field ws h k =
      let len = length-padded w n h in
      let front : take (suc w) (padded (suc w) n ++ sep ∷ rest) ≡ padded (suc w) n =
        ap (λ m. take m (padded (suc w) n ++ sep ∷ rest)) (sym len)
        ∙ take-append (padded (suc w) n) (sep ∷ rest) in
      let back : drop (suc (suc w)) (padded (suc w) n ++ sep ∷ rest) ≡ rest =
        ap (λ m. drop (suc m) (padded (suc w) n ++ sep ∷ rest)) (sym len)
        ∙ drop-field (padded (suc w) n) rest sep in
      rw (front, back, value-padded (suc w) n k) refl

read-last : (n : ℕ) → n < 1000 → read_fields (3 ∷ []) (padded 3 n) ≡ n ∷ []
unfolding read_fields
read-last n h =
    let all : take 3 (padded 3 n) ≡ padded 3 n =
      ap (λ m. take m (padded 3 n)) (sym (length-padded 2 n h)) ∙ take-all (padded 3 n) in
    rw (all, value-padded 3 n (omega arith)) refl

module _ (t : Timeval) (tm : Tm) where
  pub is_text-stamp : is_text (stamp t tm) ≡ true
  unfolding stamp is_text
  is_text-stamp = is_text-field 3 (tm.tm_year + 1900) 45 _ (
      is_text-field 1 (tm.tm_mon + 1) 45 _ (
        is_text-field 1 tm.tm_mday 32 _ (
          is_text-field 1 tm.tm_hour 58 _ (
            is_text-field 1 tm.tm_min 58 _
              (is_text-field 1 tm.tm_sec 46 _ (is_text-padded 3 (t.tv_usec / 1000)))))))

  module _ (us : t.tv_usec < 1000000) (h : IsTm tm) where
    pub length-stamp : length (stamp t tm) ≡ 23
    unfolding stamp
    length-stamp =
        length-field 3 (tm.tm_year + 1900) 45 _ (omega (arith, h.year))
        ∙ ap (λ k. 4 + suc k)
            (length-field 1 (tm.tm_mon + 1) 45 _ (omega (arith, h.mon))
              ∙ ap (λ k. 2 + suc k)
                  (length-field 1 tm.tm_mday 32 _ (omega (arith, h.mday))
                    ∙ ap (λ k. 2 + suc k)
                        (length-field 1 tm.tm_hour 58 _ (omega (arith, h.hour))
                          ∙ ap (λ k. 2 + suc k)
                              (length-field 1 tm.tm_min 58 _ (omega (arith, h.min))
                                ∙ ap (λ k. 2 + suc k)
                                    (length-field 1 tm.tm_sec 46 _ (omega (arith, h.sec))
                                      ∙ ap (λ k. 2 + suc k)
                                          (length-padded 2 (t.tv_usec / 1000)
                                            (omega (arith, us))))))))

    -- The stamp says the year, the month, the day, the hour, the minute, the second and the
    -- millisecond.
    pub read-stamp :
        read_fields (4 ∷ 2 ∷ 2 ∷ 2 ∷ 2 ∷ 2 ∷ 3 ∷ []) (stamp t tm)
        ≡ (tm.tm_year + 1900)
          ∷ (tm.tm_mon + 1)
          ∷ tm.tm_mday
          ∷ tm.tm_hour
          ∷ tm.tm_min
          ∷ tm.tm_sec
          ∷ (t.tv_usec / 1000)
          ∷ []
    unfolding stamp
    read-stamp =
        read-field 3 (tm.tm_year + 1900) 45 _ _ (omega (arith, h.year)) (omega (arith, h.year))
        ∙ ap (λ l. (tm.tm_year + 1900) ∷ l)
            (read-field 1 (tm.tm_mon + 1) 45 _ _ (omega (arith, h.mon)) (omega (arith, h.mon))
              ∙ ap (λ l. (tm.tm_mon + 1) ∷ l)
                  (read-field 1 tm.tm_mday 32 _ _ (omega (arith, h.mday)) (omega (arith, h.mday))
                    ∙ ap (λ l. tm.tm_mday ∷ l)
                        (read-field 1 tm.tm_hour 58 _ _ (omega (arith, h.hour))
                            (omega (arith, h.hour))
                          ∙ ap (λ l. tm.tm_hour ∷ l)
                              (read-field 1 tm.tm_min 58 _ _ (omega (arith, h.min))
                                  (omega (arith, h.min))
                                ∙ ap (λ l. tm.tm_min ∷ l)
                                    (read-field 1 tm.tm_sec 46 _ _ (omega (arith, h.sec))
                                        (omega (arith, h.sec))
                                      ∙ ap (λ l. tm.tm_sec ∷ l)
                                          (read-last (t.tv_usec / 1000) (omega (arith, us))))))))

-- ===== src/Log/Examples.antt =====
-- A log line of a Friday in 2018, on the platform of `Sim`.
use libco_lite.Base.{◌≡◌, refl, some, List, ℕ, [], ◌∷◌, ◌++◌, arith, length}
use libco_lite.Sim.{SimKernel, sim}
use libco_lite.Log.{Tm, erase_line, reset, heading, print}
use libco_lite.Log.Stamp.{IsTm, read_fields}
use libco_lite.Log.Line.{print_lem}

-- 2018-06-01 12:34:23, at every time.
abbrev friday : Tm
friday = record { tm_sec = 23; tm_min = 34; tm_hour = 12; tm_mday = 1; tm_mon = 5; tm_year = 118 }

friday-IsTm : IsTm friday
friday-IsTm = record {
  sec = omega arith;
  min = omega arith;
  hour = omega arith;
  mday = omega arith;
  mon = omega arith;
  year = omega arith;
}

abbrev at_345 : SimKernel
at_345 = record { now = 345; pace = 1; script = [] }

-- "INFO" in green, from line 7 of "a", in "f".
print_lem_example :
    (text : List ℕ) × (print sim
        (λ _. friday)
        (73 ∷ 78 ∷ 70 ∷ 79 ∷ [])
        (27 ∷ 91 ∷ 51 ∷ 50 ∷ 109 ∷ [])
        (97 ∷ [])
        (102 ∷ [])
        (33 ∷ [])
        7
        (λ _. 0)
        at_345
      ≡ (
        some (
            erase_line
            ++ ((27 ∷ 91 ∷ 51 ∷ 50 ∷ 109 ∷ [])
                ++ 91
                  ∷ (text
                      ++ (heading (73 ∷ 78 ∷ 70 ∷ 79 ∷ []) (97 ∷ []) (102 ∷ []) 7
                          ++ (reset ++ 33 ∷ []))))),
        record at_345 { now = 346 },
      ))
    × (length text ≡ 23)
    × (read_fields (4 ∷ 2 ∷ 2 ∷ 2 ∷ 2 ∷ 2 ∷ 3 ∷ []) text ≡ 2018 ∷ 6 ∷ 1 ∷ 12 ∷ 34 ∷ 23 ∷ 345 ∷ [])
print_lem_example =
    print_lem sim (λ _. friday) (73 ∷ 78 ∷ 70 ∷ 79 ∷ []) (27 ∷ 91 ∷ 51 ∷ 50 ∷ 109 ∷ []) (97 ∷ [])
      (102 ∷ []) (33 ∷ []) 7 (λ _. 0) at_345 (record { tv_sec = 0; tv_usec = 345000 }) refl
      (omega arith) friday-IsTm

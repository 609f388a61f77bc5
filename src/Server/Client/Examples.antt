-- ===== src/Server/Client/Examples.antt =====
-- A client of the line servers at a typed line: "ab", which arrives in two pieces.
use libco_lite.Base.{ℕ, ◌+◌, ◌≡◌, refl, some, List, [], ◌∷◌, ◌++◌, arith, length}
use libco_lite.Server.{Buffer, newline, bytes, upper, wrote, handle}
use libco_lite.Server.Lines.{joined, arriving, one_line, ends}
use libco_lite.Chars.{taken}
use libco_lite.Server.Client.{asked, ask, show_reply}
use libco_lite.Server.Client.Talk.{plain}
use libco_lite.Server.Client.Replies.{raised, typed_line-raised}

abbrev typed : List ℕ
typed = 97 ∷ 98 ∷ []

abbrev junk : Buffer
junk j = 7

typed_line-raised_example :
    (b c : Buffer) × (ask (typed ++ newline ∷ 99 ∷ []) junk
      ≡ asked (typed ++ newline ∷ newline ∷ []) b (99 ∷ []))
    × (handle upper (arriving ((97 ∷ []) ∷ (98 ∷ 10 ∷ 10 ∷ []) ∷ []) []) junk
        ≡ wrote (length typed + 2) c [])
    × (show_reply (bytes (taken (length typed + 2) 0 c)) b
        ≡ some (raised typed ++ newline ∷ newline ∷ []))
unfolding plain one_line ends joined
typed_line-raised_example =
    typed_line-raised typed (99 ∷ []) junk junk ((97 ∷ []) ∷ (98 ∷ 10 ∷ 10 ∷ []) ∷ []) [] refl
      (omega arith) refl refl

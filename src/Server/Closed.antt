-- ===== src/Server/Closed.antt =====
-- What a line server makes of a client that closes its connection (tools/server/upper.c and
-- reverse.c: `get_line`, `handle` and the client's branch of `main`).
use libco_lite.Base.{ℕ, Bool, true, false, ◌&&◌, List, [], ◌∷◌, not}
use libco_lite.Server.Lines.{ends}

-- No chunk is empty, and none ends in a newline.
unfoldable pub unfinished : List (List ℕ) → Bool
unfinished [] = true
unfinished ([] ∷ css) = false
unfinished ((c ∷ cs) ∷ css) = not (ends (c ∷ cs)) && unfinished css

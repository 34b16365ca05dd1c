-- ===== src/Str/Lines.antt =====
-- `lines`: split after each "\n", and drop the "\n" and a "\r" before it.
use liberdus_proxy.Prelude.{ℕ, Bool, false, ◌&&◌, List, [], ◌∷◌, ◌++◌, Text, ◌==◌, if◌then◌else◌}

-- "\n" and "\r"
abbrev pub lf : ℕ
lf = 10

abbrev pub cr : ℕ
cr = 13

abbrev pub at_newline : Text → Bool
at_newline [] = false
at_newline (b ∷ bs) = b == lf

abbrev pub onto_first : ℕ → List Text → List Text
onto_first b [] = (b ∷ []) ∷ []
onto_first b (line ∷ rest) = (b ∷ line) ∷ rest

unfoldable pub lines : Text → List Text
lines [] = []
lines (b ∷ bs) =
    let rest = lines bs in
    if b == lf then [] ∷ rest else if b == cr && at_newline bs then rest else onto_first b rest

-- `join("\r\n")`
unfoldable pub join_crlf : List Text → Text
join_crlf [] = []
join_crlf (line ∷ []) = line
join_crlf (line ∷ next ∷ rest) = line ++ (cr ∷ lf ∷ join_crlf (next ∷ rest))

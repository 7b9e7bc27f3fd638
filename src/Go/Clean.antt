-- ===== src/Go/Clean.antt =====
-- `path.Clean` on rooted paths: empty and `.` components go, `..` takes the component before it.
use aegis_ebpf.Base.{ℕ, List, [], ◌∷◌, ◌++◌, ◌==◌, ◌=b◌, if◌then◌else◌, Bytes, codes}

cons_first : ℕ → List Bytes → List Bytes
cons_first c [] = (c ∷ []) ∷ []
cons_first c (s ∷ rest) = (c ∷ s) ∷ rest

-- The texts between slashes.
unfoldable pub components : Bytes → List Bytes
unfolding cons_first
components [] = [] ∷ []
components (c ∷ s) = let rest = components s in if c == b'/' then [] ∷ rest else cons_first c rest

pop : List Bytes → List Bytes
pop [] = []
pop (_ ∷ stack) = stack

-- The components that are kept, the last one first.
unfoldable pub resolve : List Bytes → List Bytes → List Bytes
unfolding pop
resolve stack [] = stack
resolve stack (c ∷ rest) =
    resolve
      (if c =b []
        then stack
        else if c =b codes "."
        then stack
        else if c =b codes ".."
        then pop stack
        else c ∷ stack)
      rest

-- Each component behind a slash, from the last to the first.
unfoldable pub render_onto : Bytes → List Bytes → Bytes
render_onto out [] = out
render_onto out (c ∷ stack) = render_onto (b'/' ∷ (c ++ out)) stack

root_if_empty : Bytes → Bytes
root_if_empty [] = b'/' ∷ []
root_if_empty (c ∷ s) = c ∷ s

unfoldable pub clean_rooted : Bytes → Bytes
unfolding root_if_empty render_onto resolve components
clean_rooted p = root_if_empty (render_onto [] (resolve [] (components p)))

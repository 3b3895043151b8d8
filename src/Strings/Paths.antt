-- ===== src/Strings/Paths.antt =====
-- filepath.Clean and filepath.Join on Unix.
pub mod Cleaned
pub mod Beneath
use code_sandbox.Prelude.{
  ◌≡◌, refl, Bool, true, false, ◌||◌, List, [], ◌∷◌, ◌++◌, ◌==◌, if◌then◌else◌, Bytes, bytes_eq,
  codes,
}
use code_sandbox.Strings.{join}
use mathlib.Core.List.{reverse}

-- The elements between slashes; the second argument is the element so far.
pub elements_from : Bytes → Bytes → List Bytes
elements_from [] cur = cur ∷ []
elements_from (c ∷ s) cur = elim (c == b'/') [
  | true ↦ cur ∷ elements_from s []
  | false ↦ elements_from s (cur ++ c ∷ [])
]

abbrev pub dot_dot : Bytes
dot_dot = b'.' ∷ b'.' ∷ []

-- "..", above the elements that are kept, the last one first
pub up : Bool → List Bytes → List Bytes
up true [] = []
up false [] = dot_dot ∷ []
up rooted (top ∷ stack) = if bytes_eq top dot_dot then dot_dot ∷ top ∷ stack else stack

pub step : Bool → List Bytes → Bytes → List Bytes
unfolding up
step rooted stack e =
    if bytes_eq e [] || bytes_eq e (b'.' ∷ [])
    then stack
    else if bytes_eq e dot_dot
    then up rooted stack
    else e ∷ stack

pub steps : Bool → List Bytes → List Bytes → List Bytes
unfolding step
steps rooted stack [] = stack
steps rooted stack (e ∷ es) = steps rooted (step rooted stack e) es

pub is_rooted : Bytes → Bool
is_rooted [] = false
is_rooted (c ∷ s) = c == b'/'

pub render : Bool → List Bytes → Bytes
render true elements = b'/' ∷ join elements (b'/' ∷ [])
render false [] = b'.' ∷ []
render false (e ∷ es) = join (e ∷ es) (b'/' ∷ [])

-- filepath.Clean
unfoldable pub clean : Bytes → Bytes
unfolding elements_from steps is_rooted render join
clean s = render (is_rooted s) (reverse (steps (is_rooted s) [] (elements_from s [])))

-- filepath.Join of two elements
unfoldable pub join_path : Bytes → Bytes → Bytes
unfolding clean
join_path [] [] = []
join_path [] (c ∷ b) = clean (c ∷ b)
join_path (c ∷ a) b = clean ((c ∷ a) ++ (b'/' ∷ b))

join_path_tests :
    (join_path (codes "/tmp/goboxd/") (codes "job-1") ≡ codes "/tmp/goboxd/job-1")
    × (join_path (codes "/tmp//job-1") (codes "..") ≡ codes "/tmp")
    × (join_path (codes "a") (codes "../..") ≡ codes "..")
unfolding join_path bytes_eq
join_path_tests = (refl, refl, refl)

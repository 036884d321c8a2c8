-- ===== src/Paths.antt =====
-- The functions of Go's path/filepath on which the checks of internal/gateway rest (`Clean`, `Join`
-- of two elements, `IsAbs`), for slash-separated paths, and what those checks mean for the
-- components of a path: `containedTarget`, `extractZIP`, `validateArtifactZIP`, `resolveAppPath`,
-- `validateRootDirectory` all test the text of a cleaned path.
pub mod Safety
pub mod Rooted
use mathlib.Core.List.{reverse}
use cloudpanel_gateway.Base.{
  ◌≡◌, refl, Bool, false, ◌||◌, List, [], ◌∷◌, ◌++◌, ◌==◌, if◌then◌else◌, Bytes, codes, bytes_eq,
  split, join,
}

abbrev pub dot : Bytes
dot = b'.' ∷ []

abbrev pub dotdot : Bytes
dotdot = b'.' ∷ b'.' ∷ []

-- `filepath.IsAbs(p)`
unfoldable pub is_abs : Bytes → Bool
is_abs [] = false
is_abs (c ∷ p) = c == b'/'

-- A `..` takes the last component away. At the root it is dropped, and before the first component
-- of a relative path it stays.
unfoldable pub go_up : Bool → List Bytes → List Bytes
go_up rooted [] = if rooted then [] else dotdot ∷ []
go_up rooted (top ∷ stack) = if bytes_eq top dotdot then dotdot ∷ top ∷ stack else stack

-- One component of the path; the stack has the last component at its head.
unfoldable pub push_part : Bool → List Bytes → Bytes → List Bytes
unfolding go_up
push_part rooted stack part =
    if bytes_eq part [] || bytes_eq part dot
    then stack
    else if bytes_eq part dotdot
    then go_up rooted stack
    else part ∷ stack

unfoldable pub push_parts : Bool → List Bytes → List Bytes → List Bytes
unfolding push_part
push_parts rooted stack [] = stack
push_parts rooted stack (part ∷ parts) = push_parts rooted (push_part rooted stack part) parts

-- The components of the cleaned path.
unfoldable pub clean_parts : Bytes → List Bytes
unfolding push_parts is_abs
clean_parts p = reverse (push_parts (is_abs p) [] (split b'/' p))

abbrev or_dot : List Bytes → Bytes
or_dot [] = dot
or_dot (p ∷ ps) = join b'/' (p ∷ ps)

abbrev clean_text : Bool → List Bytes → Bytes
clean_text rooted parts = if rooted then b'/' ∷ join b'/' parts else or_dot parts

-- `filepath.Clean(p)`
unfoldable pub clean : Bytes → Bytes
clean p = clean_text (is_abs p) (clean_parts p)

-- `filepath.Join(a, b)`: empty elements are left out.
unfoldable pub join_path : Bytes → Bytes → Bytes
unfolding clean
join_path [] [] = []
join_path [] (c ∷ b) = clean (c ∷ b)
join_path (c ∷ a) [] = clean (c ∷ a)
join_path (c ∷ a) (d ∷ b) = clean ((c ∷ a) ++ b'/' ∷ d ∷ b)

abbrev nonempty : List Bytes → List Bytes
nonempty [] = []
nonempty (p ∷ ps) = if bytes_eq p [] then nonempty ps else p ∷ nonempty ps

abbrev clean_joined : List Bytes → Bytes
clean_joined [] = []
clean_joined (p ∷ ps) = clean (join b'/' (p ∷ ps))

-- `filepath.Join(ps...)`
unfoldable pub join_paths : List Bytes → Bytes
unfolding clean
join_paths ps = clean_joined (nonempty ps)

-- The text up to its last slash, the slash included.
upto_slash : Bytes → Bytes
upto_slash [] = []
upto_slash (c ∷ p) =
    let rest = upto_slash p in
    if bytes_eq rest [] then (if c == b'/' then c ∷ [] else []) else c ∷ rest

-- `filepath.Dir(p)`
unfoldable pub dir_of : Bytes → Bytes
unfolding upto_slash clean
dir_of p = clean (upto_slash p)

clean_tests :
    (clean (codes "a//b/./../c/") ≡ codes "a/c")
    × (clean (codes "/../x") ≡ codes "/x")
    × (clean (codes "../../a") ≡ codes "../../a")
    × (clean (codes "") ≡ codes ".")
    × (clean (codes "a/..") ≡ codes ".")
    × (clean (codes "/") ≡ codes "/")
unfolding clean clean_parts is_abs
clean_tests = (refl, refl, refl, refl, refl, refl)

dir_of_tests : (dir_of (codes "/a/b/c") ≡ codes "/a/b") × (dir_of (codes "a") ≡ codes ".")
unfolding dir_of clean_parts is_abs
dir_of_tests = (refl, refl)

-- ===== src/FileStore/Paths.antt =====
-- Which file a path names: the operating system's reading of `.` and `..`, without symbolic links and
-- without the working directory.
use p2p_sync_engine.Prelude.{
  ℕ, Bool, ◌||◌, true, false, Bytes, List, [], ◌∷◌, ◌++◌, codes, str_eq, ◌==◌, if◌then◌else◌,
}

unfoldable pub is_absolute : Bytes → Bool
is_absolute [] = false
is_absolute (c ∷ path) = c == b'/'

-- `..`, on the names from the root or from the working directory, the last one first.
unfoldable pub step_up : Bool → List Bytes → List Bytes
step_up true [] = []
step_up false [] = codes ".." ∷ []
step_up absolute (name ∷ above) =
    if str_eq name (codes "..") then codes ".." ∷ name ∷ above else above

-- One name of a path.
unfoldable pub enter : Bool → List Bytes → Bytes → List Bytes
unfolding step_up
enter absolute above name =
    if str_eq name []
    then above
    else if str_eq name (codes ".")
    then above
    else if str_eq name (codes "..")
    then step_up absolute above
    else name ∷ above

-- The names that were read, and the part of the one that is being read.
abbrev pub Reading : Type 0
Reading = List Bytes × Bytes

unfoldable pub read : Bool → Reading → ℕ → Reading
unfolding enter
read absolute (above, name) c =
    if c == b'/' then (enter absolute above name, []) else (above, name ++ (c ∷ []))

-- All names of a path.
unfoldable pub walk : Bool → Reading → Bytes → List Bytes
unfolding read
walk absolute r [] = enter absolute r.0 r.1
walk absolute r (c ∷ path) = walk absolute (read absolute r c) path

unfoldable pub render : List Bytes → Bytes
render [] = []
render (name ∷ above) = render above ++ (b'/' ∷ name)

unfoldable pub starts_with : Bytes → Bytes → Bool
starts_with [] path = true
starts_with (c ∷ start) [] = false
starts_with (c ∷ start) (d ∷ path) =
    let rest = starts_with start path in if c == d then rest else false

-- The second file stands somewhere below the first path.
unfoldable pub is_above : Bytes → Bytes → Bool
unfolding starts_with
is_above dir path = starts_with (dir ++ (b'/' ∷ [])) path

-- A path from the working directory starts with `.`, one from the root does not.
unfoldable pub resolve : Bytes → Bytes
unfolding is_absolute walk render
resolve path =
    let names = render (walk (is_absolute path) ([], []) path) in
    if is_absolute path then names else b'.' ∷ names

abbrev place : Bool → List Bytes → Bytes
place absolute names = if absolute then render names else b'.' ∷ render names

-- One of the directories that are entered on the way is at `k`.
unfoldable pub through : Bool → Reading → Bytes → Bytes → Bool
unfolding read enter
through absolute r [] k = false
through absolute (above, name) (c ∷ path) k =
    let rest = through absolute (read absolute (above, name) c) path k in
    let here = str_eq (place absolute (enter absolute above name)) k in
    if c == b'/' then (if here then true else rest) else rest

-- The path, as it is written, leads through the place `k`: each of its slashes ends the path of a
-- directory, also the last one, and also one that `..` leaves again.
unfoldable pub passes : Bytes → Bytes → Bool
unfolding through is_absolute
passes path k = through (is_absolute path) ([], []) path k

-- What stands behind the last slash.
unfoldable pub last_name : Bytes → Bytes → Bytes
last_name seen [] = seen
last_name seen (c ∷ path) = last_name (if c == b'/' then [] else seen ++ (c ∷ [])) path

-- The path can be that of a directory only.
unfoldable pub names_directory : Bytes → Bool
unfolding last_name
names_directory path =
    let name = last_name [] path in
    str_eq name [] || (str_eq name (codes ".") || str_eq name (codes ".."))

-- ===== src/Program.antt =====
-- src/main.cpp: what stands in front of main. Paths are those of POSIX.
pub mod Root
pub mod Modes
use collector_service.Prelude.Result.{Result, err, ok}
use collector_service.StdString.{starts_with}
use collector_service.ModelFile.Repository.{Files}
use collector_service.Prelude.{
  Bool, Bytes, Option, [], equal, if◌then◌else◌, is_empty, none, some, suc, text, zero, ℕ, ◌&&◌,
  ◌++◌, ◌==◌, ◌||◌, ◌∷◌,
}

-- What std::filesystem asks the system.
pub record Disk : Type 0 where
  pub current_path : Bytes
  pub weakly_canonical : Bytes → Result Bytes
  pub files : Files

unfoldable pub read_text_file : Files → Bytes → Result Bytes
unfolding text
read_text_file files path = elim (files.content path) [
  | none ↦ err (text "failed to open command file: " ++ path)
  | some t ↦ ok t
]

unfoldable pub is_exit_command : Bytes → Bool
unfolding equal text
is_exit_command line = equal line (text "exit") || equal line (text "quit")

-- A path up to its last slash, with it.
unfoldable pub without_name : Bytes → Bytes
without_name [] = []
without_name (c ∷ cs) =
    let rest = without_name cs in
    if is_empty rest then (if c == b'/' then c ∷ [] else []) else c ∷ rest

unfoldable pub without_slashes : Bytes → Bytes
without_slashes [] = []
without_slashes (c ∷ cs) =
    let rest = without_slashes cs in
    if is_empty rest then (if c == b'/' then [] else c ∷ []) else c ∷ rest

-- path::parent_path: that of a root is the root.
unfoldable pub parent_path : Bytes → Bytes
unfolding without_name without_slashes
parent_path path =
    if is_empty (without_slashes path)
    then path
    else let front = without_name path in
      if is_empty (without_slashes front) then front else without_slashes front

-- operator/ of path
unfoldable pub append : Bytes → Bytes → Bytes
unfolding starts_with without_slashes
append path name =
    if starts_with (b'/' ∷ []) name
    then name
    else if is_empty path || equal (without_name path) path
    then path ++ name
    else path ++ (b'/' ∷ name)

unfoldable pub has_project_files : Files → Bytes → Bool
unfolding append text
has_project_files files path =
    files.path_exists (append (append path (text "scripts")) (text "init.sql"))
    && files.path_exists (append path (text "config"))

-- The loop over the parents, for a number of rounds.
unfoldable pub search_parents : Files → ℕ → Bytes → Option Bytes
unfolding has_project_files parent_path
search_parents files zero candidate = none
search_parents files (suc rounds) candidate =
    let later = search_parents files rounds (parent_path candidate) in
    if is_empty candidate
    then none
    else if has_project_files files candidate
    then some candidate
    else later

-- The last tests of resolveProjectRoot.
unfoldable pub root_or_cwd : Files → Bytes → Option Bytes → Bytes
unfolding has_project_files parent_path
root_or_cwd files cwd (some root) = root
root_or_cwd files cwd none =
    if has_project_files files (parent_path cwd) then parent_path cwd else cwd

unfoldable pub absolute : Bytes → Bytes → Bytes
unfolding append starts_with
absolute cwd path = if starts_with (b'/' ∷ []) path then path else append cwd path

unfoldable pub resolve_project_root : Disk → Bytes → Result Bytes
unfolding root_or_cwd search_parents absolute
resolve_project_root disk executable =
    let cwd = disk.current_path in
    if has_project_files disk.files cwd
    then ok cwd
    else elim (disk.weakly_canonical (absolute cwd executable)) [
      | err what ↦ err what
      | ok exe ↦ ok (root_or_cwd disk.files cwd (search_parents disk.files 4 (parent_path exe)))
    ]

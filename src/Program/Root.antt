-- ===== src/Program/Root.antt =====
-- The directory that resolveProjectRoot finds.
use collector_service.ModelFile.Repository.{Files}
use collector_service.Prelude.Result.{ok}
use collector_service.Program.{
  parent_path, Disk, absolute, has_project_files, resolve_project_root, search_parents,
  without_slashes, root_or_cwd,
}
use collector_service.Prelude.{
  Bytes, [], refl, suc, zero, ℕ, ◌≡◌, Option, arith, false, is_empty, none, some, true, ◌<◌, ◌≢◌,
  ◌⊎◌, Bool-cases, if◌then◌else◌, inl, inr, ◌∷◌,
}

-- The path some parents up.
abbrev pub ancestor : ℕ → Bytes → Bytes
ancestor zero path = path
ancestor (suc k) path = ancestor k (parent_path path)

ancestor-empty : (k : ℕ) → ancestor k [] ≡ []
unfolding parent_path is_empty without_slashes
ancestor-empty zero = refl
ancestor-empty (suc k) = ancestor-empty k

-- There is no such path, or the files are not in it.
abbrev pub IsMissing : Files → Bytes → Type 0
IsMissing files path = path ≢ [] → has_project_files files path ≡ false

abbrev Found : Files → ℕ → Bytes → Option Bytes → Type 0
Found files rounds path (some root) = has_project_files files root ≡ true
Found files rounds path none = (j : ℕ) → j < rounds → IsMissing files (ancestor j path)

IsMissing-ancestors :
    (files : Files) (rounds : ℕ) (path : Bytes)
    → IsMissing files path
    → ((j : ℕ) → j < rounds → IsMissing files (ancestor j (parent_path path)))
    → (j : ℕ) → j < suc rounds
    → IsMissing files (ancestor j path)
IsMissing-ancestors files rounds path here above zero h = here
IsMissing-ancestors files rounds path here above (suc j) h = above j (omega (arith, h))

above-Found :
    (files : Files) (rounds : ℕ) (path : Bytes) (later : Option Bytes)
    → IsMissing files path
    → Found files rounds (parent_path path) later
    → Found files (suc rounds) path later
above-Found files rounds path (some root) here found = found
above-Found files rounds path none here found = IsMissing-ancestors files rounds path here found

search_step :
    (files : Files) (rounds : ℕ) (path : Bytes) (later : Option Bytes)
    → Found files rounds (parent_path path) later
    → Found files
        (suc rounds)
        path
        (if is_empty path then none else if has_project_files files path then some path else later)
unfolding is_empty
search_step files rounds [] later found = λ j h there. absurd (there (ancestor-empty j))
search_step files rounds (c ∷ cs) later found =
    elim (Bool-cases (has_project_files files (c ∷ cs))) [
      | inl here ↦ rw here here
      | inr missing ↦ rw missing (above-Found files rounds (c ∷ cs) later (λ _. missing) found)
    ]

search_parents-Found :
    (files : Files) (rounds : ℕ) (path : Bytes)
    → Found files rounds path (search_parents files rounds path)
unfolding search_parents
search_parents-Found files zero path = λ j h. absurd (omega (arith, h))
search_parents-Found files (suc rounds) path =
    search_step files rounds path _ (search_parents-Found files rounds (parent_path path))

-- The directory has the project's files; or it is the current one, and they are missing in it, in
-- its parent and in the first four directories above the executable.
abbrev pub IsRoot : Disk → Bytes → Bytes → Type 0
IsRoot disk exe root =
    (has_project_files disk.files root ≡ true)
    ⊎ ((root ≡ disk.current_path)
        × (has_project_files disk.files root ≡ false)
        × (has_project_files disk.files (parent_path root) ≡ false)
        × ((k : ℕ) → k < 4 → IsMissing disk.files (ancestor (suc k) exe)))

root_or_cwd-IsRoot :
    (disk : Disk) (exe : Bytes) (found : Option Bytes)
    → has_project_files disk.files disk.current_path ≡ false
    → Found disk.files 4 (parent_path exe) found
    → IsRoot disk exe (root_or_cwd disk.files disk.current_path found)
unfolding root_or_cwd
root_or_cwd-IsRoot disk exe (some root) cwd here = inl here
root_or_cwd-IsRoot disk exe none cwd missing =
    elim (Bool-cases (has_project_files disk.files (parent_path disk.current_path))) [
      | inl there ↦ rw there (inl there)
      | inr no_parent ↦ rw no_parent (inr (refl, cwd, no_parent, missing))
    ]

-- Where std::filesystem resolves the path of the executable, resolveProjectRoot gives a directory
-- with the project's files, or the current directory where they are missing in it, in its parent
-- and in the first four directories above the executable.
pub resolve_project_root-IsRoot :
    (disk : Disk) (executable exe : Bytes)
    → disk.weakly_canonical (absolute disk.current_path executable) ≡ ok exe
    → (root : Bytes) × (resolve_project_root disk executable ≡ ok root) × IsRoot disk exe root
unfolding resolve_project_root
resolve_project_root-IsRoot disk executable exe e =
    elim (Bool-cases (has_project_files disk.files disk.current_path)) [
      | inl here ↦ (disk.current_path, rw (here, resolve_project_root) refl, inl here)
      | inr cwd ↦
          let found = search_parents disk.files 4 (parent_path exe) in
          (
            root_or_cwd disk.files disk.current_path found,
            rw (cwd, resolve_project_root) (rw e refl),
            root_or_cwd-IsRoot disk exe found cwd
                (search_parents-Found disk.files 4 (parent_path exe)),
          )
    ]

-- ===== src/ModelFile/Repository.antt =====
-- src/model/ModelRepository.cpp.
use collector_service.StdString.{find, is_found, starts_with}
use collector_service.Prelude.{
  Bool, Bytes, List, Option, [], equal, if◌then◌else◌, is_empty, none, some, text, ◌++◌, ◌∷◌, false,
  ◌==◌, ◌||◌,
}
use collector_service.Prelude.Result.{Result, err, ok}

-- The file system: whether a path exists, and the text of a file that opens.
pub record Files : Type 0 where
  pub path_exists : Bytes → Bool
  pub content : Bytes → Option Bytes

pub record ModelRepository : Type 0 where
  pub model_directory : Bytes
  pub fallback_directory : Bytes

unfoldable pub has_data_item_text : Bytes → Bool
unfolding find text
has_data_item_text value = is_found (find (text "DataItem:") value)

unfoldable pub ends_in_slash : Bytes → Bool
ends_in_slash [] = false
ends_in_slash (c ∷ []) = c == b'/'
ends_in_slash (c ∷ d ∷ cs) = ends_in_slash (d ∷ cs)

-- directory / name of std::filesystem::path: an absolute name stands alone, and a slash comes between
-- unless the directory is empty or ends in one.
unfoldable pub path_in : Bytes → Bytes → Bytes
unfolding starts_with ends_in_slash is_empty
path_in directory name =
    if starts_with (b'/' ∷ []) name
    then name
    else if is_empty directory || ends_in_slash directory
    then directory ++ name
    else directory ++ (b'/' ∷ name)

unfoldable pub three_suffixes : Bytes → Bytes → List Bytes
unfolding path_in text
three_suffixes directory name =
    path_in directory (name ++ text ".yaml")
    ∷ path_in directory (name ++ text ".yml")
    ∷ path_in directory (name ++ text ".txt")
    ∷ []

unfoldable pub candidates : ModelRepository → Bytes → Bytes → List Bytes
unfolding three_suffixes path_in is_empty equal text
candidates repository model model_version =
    (if is_empty model_version
      then []
      else three_suffixes repository.model_directory (model ++ (b'-' ∷ model_version)))
    ++ (three_suffixes repository.model_directory model
        ++ (if equal model (text "M1")
            then path_in repository.fallback_directory (text "model.txt") ∷ []
            else []))

unfoldable pub first_existing : Files → List Bytes → Option Bytes
first_existing files [] = none
first_existing files (path ∷ paths) =
    if files.path_exists path then some path else first_existing files paths

unfoldable pub load_file : Files → Bytes → Result Bytes
load_file files path = elim (files.content path) [
  | none ↦ err (text "failed to open model file: " ++ path)
  | some t ↦ ok t
]

unfoldable pub load_model_text : Files → ModelRepository → Bytes → Bytes → Result Bytes
unfolding has_data_item_text candidates first_existing load_file is_empty
load_model_text files repository model model_version =
    if is_empty model
    then err (text "model is empty")
    else if has_data_item_text model
    then ok model
    else elim (first_existing files (candidates repository model model_version)) [
      | none ↦ err (text "model definition not found: " ++ model)
      | some path ↦ load_file files path
    ]

-- ===== src/Filestore.antt =====
-- `NativeFilestore` of src/cfdppy/filestore.py on a tree of files: a list of paths, each with the
-- bytes of a file or a directory. Every path without parts is a directory. What Python's files and
-- the host do is the documented behaviour of `open`, `mkdir`, `rename` and their like, for a process
-- that may access every file. A ".." part of a path is an ordinary name of the tree; a host's
-- resolution of it is not modelled.
pub mod Check
pub mod Files
pub mod Native
pub mod Interface
pub mod Listing
pub mod Create
use cfdp_py.Base.{
  ℕ, zero, suc, ◌+◌, ◌-◌, min, Bool, true, false, not, ◌&&◌, ◌||◌, Option, none, some, List, [],
  ◌∷◌, ◌++◌, ltb, ◌==◌, if◌then◌else◌, length, take, drop, replicate,
}
use cfdp_py.FilePath.{name, Text, FilePath, path_eq, is_relative_to}
use cfdp_py.Errors.{Error, file_not_found_error, os_error}
use cfdp_py.Proc.{Proc, pure, raise, gets, modify, when, try_except, ◌>>=◌, ◌>>◌}

pub data Node : Type 0 where
  file : List ℕ → Node
  directory : Node

abbrev pub Tree : Type 0
Tree = List (FilePath × Node)

-- The response codes of the packet library that the filestore returns.
pub data FilestoreResponseStatusCode : Type 0 where
  create_success create_not_allowed : FilestoreResponseStatusCode
  delete_success delete_file_does_not_exist delete_not_allowed : FilestoreResponseStatusCode
  rename_success rename_not_performed : FilestoreResponseStatusCode
  rename_old_file_does_not_exist rename_new_file_does_exist : FilestoreResponseStatusCode
  replace_success replace_not_allowed : FilestoreResponseStatusCode
  replace_one_does_not_exist replace_two_does_not_exist : FilestoreResponseStatusCode
  remove_dir_success remove_dir_does_not_exist : FilestoreResponseStatusCode
  remove_dir_not_allowed : FilestoreResponseStatusCode
  create_dir_success create_dir_can_not_be_created : FilestoreResponseStatusCode
  success not_performed : FilestoreResponseStatusCode

unfoldable pub entry : FilePath → Tree → Option Node
entry p [] = none
entry p ((q, n) ∷ tree) = if path_eq p q then some n else entry p tree

unfoldable pub put : FilePath → Node → Tree → Tree
put p n [] = (p, n) ∷ []
put p n ((q, m) ∷ tree) = if path_eq p q then (q, n) ∷ tree else (q, m) ∷ put p n tree

-- All entries at a path and, with the second test, below it.
unfoldable pub drop_where : (FilePath → Bool) → Tree → Tree
drop_where gone [] = []
drop_where gone ((q, m) ∷ tree) =
    let rest = drop_where gone tree in if gone q then rest else (q, m) ∷ rest

unfoldable pub node : FilePath → Tree → Option Node
unfolding entry
node p tree = elim p.parts [ [] ↦ some directory | x ∷ xs ↦ entry p tree ]

abbrev pub is_there : Option Node → Bool
is_there none = false
is_there (some n) = true

abbrev pub is_directory_node : Option Node → Bool
is_directory_node (some directory) = true
is_directory_node _ = false

-- `path.parent`.
abbrev pub all_but_last : List Text → List Text
all_but_last [] = []
all_but_last (x ∷ []) = []
all_but_last (x ∷ y ∷ ys) = x ∷ all_but_last (y ∷ ys)

abbrev pub parent : FilePath → FilePath
parent p = record { absolute = p.absolute; parts = all_but_last p.parts }

unfoldable pub file_exists : FilePath → Proc Tree Bool
unfolding node
file_exists p = gets (λ tree. is_there (node p tree))

unfoldable pub is_directory : FilePath → Proc Tree Bool
unfolding node
is_directory p = gets (λ tree. is_directory_node (node p tree))

-- `open` of a file that exists; a directory cannot be opened.
abbrev pub bytes_of : Option Node → Proc Tree (List ℕ)
bytes_of none = raise file_not_found_error
bytes_of (some directory) = raise os_error
bytes_of (some (file bytes)) = pure bytes

unfoldable pub open_existing : FilePath → Proc Tree (List ℕ)
open_existing p = do found ← gets (node p); bytes_of found

abbrev pub or_zero : Option ℕ → ℕ
or_zero none = 0
or_zero (some n) = n

abbrev pub or_all : Option ℕ → List ℕ → ℕ
or_all none bytes = length bytes
or_all (some n) bytes = n

-- A read length of None is the size of the file.
unfoldable pub read_data : FilePath → (offset read_len : Option ℕ) → Proc Tree (List ℕ)
read_data p offset read_len = do
  bytes ← open_existing p
  pure (take (or_all read_len bytes) (drop (or_zero offset) bytes))

-- The same of a file that was opened before, whose bytes are given.
unfoldable pub read_from_opened_file : List ℕ → (offset read_len : ℕ) → List ℕ
read_from_opened_file bytes offset read_len = take read_len (drop offset bytes)

unfoldable pub filename_from_full_path : FilePath → Text
filename_from_full_path p = name p

-- The size of a directory is the host's.
unfoldable pub file_size : (directory_size : ℕ) → FilePath → Proc Tree ℕ
file_size directory_size p = do
  found ← gets (node p)
  elim found [
    | none ↦ raise file_not_found_error
    | some (file bytes) ↦ pure (length bytes)
    | some directory ↦ pure directory_size
  ]

unfoldable pub truncate_file : FilePath → Proc Tree (Unit {0})
truncate_file p = do open_existing p; modify (put p (file []))

-- A write past the end fills the gap with zeros; an empty write changes nothing.
unfoldable pub splice : List ℕ → (offset : ℕ) → (written : List ℕ) → List ℕ
splice bytes offset [] = bytes
splice bytes offset (d ∷ written) =
    take offset (bytes ++ replicate (offset - length bytes) 0)
    ++ (d ∷ written ++ drop (offset + length (d ∷ written)) bytes)

unfoldable pub write_data : FilePath → List ℕ → (offset : Option ℕ) → Proc Tree (Unit {0})
write_data p written offset = do
  bytes ← open_existing p
  modify (put p (file (splice bytes (or_zero offset) written)))

-- `mkdir(exist_ok=True, parents=True)` of the path with these parts below `parts`.
abbrev pub make_one : FilePath → Option Node → Proc Tree (Unit {0})
make_one p none = modify (put p directory)
make_one p (some directory) = pure tt
make_one p (some (file bytes)) = raise os_error

unfoldable pub make_directories : Bool → (parts below : List Text) → Proc Tree (Unit {0})
make_directories absolute parts [] = pure tt
make_directories absolute parts (x ∷ below) = do
  let p : FilePath = record { absolute = absolute; parts = parts ++ x ∷ [] }
  found ← gets (node p)
  make_one p found
  make_directories absolute (parts ++ x ∷ []) below

abbrev pub on_create_error : Error → Proc Tree FilestoreResponseStatusCode
on_create_error e = pure create_not_allowed

unfoldable pub create_file : FilePath → Proc Tree FilestoreResponseStatusCode
create_file p = do
  found ← file_exists p
  if found
      then pure create_not_allowed
      else try_except
          (do
            make_directories p.absolute [] (parent p).parts
            modify (put p (file []))
            pure create_success)
          on_create_error

unfoldable pub delete_file : FilePath → Proc Tree FilestoreResponseStatusCode
delete_file p = do
  found ← gets (node p)
  if not (is_there found)
      then pure delete_file_does_not_exist
      else if is_directory_node found
      then pure delete_not_allowed
      else do modify (drop_where (path_eq p)); pure delete_success

-- `rename` and `replace` of the host, which want the directory of the new path.
unfoldable pub move_file : (from to : FilePath) → Proc Tree (Unit {0})
move_file from to = do
  bytes ← open_existing from
  above ← gets (node (parent to))
  when (not (is_there above)) (raise file_not_found_error)
  when (not (is_directory_node above)) (raise os_error)
  when (not (path_eq from to)) do modify (drop_where (path_eq from)); modify (put to (file bytes))

unfoldable pub rename_file : (old_file new_file : FilePath) → Proc Tree FilestoreResponseStatusCode
rename_file old_file new_file = do
  old ← gets (node old_file)
  new ← gets (node new_file)
  if is_directory_node old || is_directory_node new
      then pure rename_not_performed
      else if not (is_there old)
      then pure rename_old_file_does_not_exist
      else if is_there new
      then pure rename_new_file_does_exist
      else do move_file old_file new_file; pure rename_success

unfoldable pub replace_file :
    (replaced_file source_file : FilePath) → Proc Tree FilestoreResponseStatusCode
replace_file replaced_file source_file = do
  replaced ← gets (node replaced_file)
  source ← gets (node source_file)
  if is_directory_node replaced || is_directory_node source
      then pure replace_not_allowed
      else if not (is_there replaced)
      then pure replace_one_does_not_exist
      else if not (is_there source)
      then pure replace_two_does_not_exist
      else do move_file source_file replaced_file; pure replace_success

-- Whether an entry lies below the path.
unfoldable pub has_children : FilePath → Tree → Bool
has_children p [] = false
has_children p ((q, m) ∷ tree) = is_relative_to q p && not (path_eq p q) || has_children p tree

unfoldable pub remove_directory :
    FilePath → (recursive : Bool) → Proc Tree FilestoreResponseStatusCode
remove_directory p recursive = do
  found ← gets (node p)
  children ← gets (has_children p)
  if not (is_there found)
      then pure remove_dir_does_not_exist
      else if not (is_directory_node found)
      then pure remove_dir_not_allowed
      else if recursive
      then (do modify (drop_where (λ q. is_relative_to q p)); pure remove_dir_success)
      else if children
      then pure rename_not_performed
      else do modify (drop_where (path_eq p)); pure remove_dir_success

unfoldable pub create_directory : FilePath → Proc Tree FilestoreResponseStatusCode
create_directory p = do
  found ← gets (node p)
  above ← gets (node (parent p))
  if is_there found then pure create_dir_can_not_be_created else do
    when (not (is_there above)) (raise file_not_found_error)
    when (not (is_directory_node above)) (raise os_error)
    modify (put p directory)
    pure create_dir_success

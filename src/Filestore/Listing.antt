-- ===== src/Filestore/Listing.antt =====
-- `list_directory` of src/cfdppy/filestore.py, which runs a program of the host.
use cfdp_py.Errors.{os_error, file_not_found_error}
use cfdp_py.Proc.{raise, when, skip, ◌>>◌, gets, modify, ◌>>=◌, pure, Proc}
use cfdp_py.Base.{
  none, ◌||◌, not, if◌then◌else◌, some, false, true, Bool, ℕ, Option, List, [], ◌++◌,
}
use cfdp_py.FilePath.{FilePath}
use cfdp_py.Filestore.{
  success, not_performed, FilestoreResponseStatusCode, Tree, file, node, parent, put, is_there,
  is_directory_node, open_existing,
}

pub data Platform : Type 0 where
  linux darwin windows other_system : Platform

-- The host: its system, the heading that the command gives, and what the command prints in a
-- directory, where it does not fail.
pub record Host : Type 0 where
  pub system : Platform
  pub heading : FilePath → Platform → List ℕ
  pub run_command : FilePath → Tree → Option (List ℕ)

abbrev pub knows_command : Platform → Bool
knows_command linux = true
knows_command darwin = true
knows_command windows = true
knows_command other_system = false

-- `open` in the mode "w", of a file that does not exist.
unfoldable pub open_new : FilePath → Proc Tree (Unit {0})
open_new p = do
  above ← gets (node (parent p))
  when (not (is_there above)) (raise file_not_found_error)
  when (not (is_directory_node above)) (raise os_error)
  modify (put p (file []))

-- The mode is "a" where the file exists.
unfoldable pub open_listing : FilePath → Proc Tree (Unit {0})
open_listing p = do
  found ← gets (node p)
  if is_there found then (do open_existing p; skip) else open_new p

unfoldable pub append_text : FilePath → List ℕ → Proc Tree (Unit {0})
append_text p text = do old ← open_existing p; modify (put p (file (old ++ text)))

abbrev pub write_listing : FilePath → Option (List ℕ) → Proc Tree FilestoreResponseStatusCode
write_listing target_file none = pure not_performed
write_listing target_file (some printed) = do append_text target_file printed; pure success

unfoldable pub list_directory :
    Host → (dir_name target_file : FilePath) → Proc Tree FilestoreResponseStatusCode
list_directory host dir_name target_file = do
  found ← gets (node dir_name)
  if not (is_there found) || not (is_directory_node found)
      then pure not_performed
      else if not (knows_command host.system)
      then pure not_performed
      else do
        open_listing target_file
        append_text target_file (host.heading dir_name host.system)
        result ← gets (host.run_command dir_name)
        write_listing target_file result

-- ===== src/Filestore/Interface.antt =====
-- The bodies of the operations of `VirtualFilestore` of src/cfdppy/filestore.py that have one: the
-- answers for a filestore that leaves them to its base class, with any store.
use cfdp_py.Base.{Bool}
use cfdp_py.Proc.{pure, Proc}
use cfdp_py.FilePath.{FilePath}
use cfdp_py.Filestore.{FilestoreResponseStatusCode, not_performed}

module _ {F : Type 0} where
  unfoldable pub create_file : FilePath → Proc F FilestoreResponseStatusCode
  create_file p = pure not_performed

  unfoldable pub delete_file : FilePath → Proc F FilestoreResponseStatusCode
  delete_file p = pure not_performed

  unfoldable pub rename_file : (old_file new_file : FilePath) → Proc F FilestoreResponseStatusCode
  rename_file old_file new_file = pure not_performed

  unfoldable pub replace_file :
      (replaced_file source_file : FilePath) → Proc F FilestoreResponseStatusCode
  replace_file replaced_file source_file = pure not_performed

  unfoldable pub create_directory : FilePath → Proc F FilestoreResponseStatusCode
  create_directory p = pure not_performed

  unfoldable pub remove_directory :
      FilePath → (recursive : Bool) → Proc F FilestoreResponseStatusCode
  remove_directory p recursive = pure not_performed

  unfoldable pub list_directory :
      (dir_name file_name : FilePath) → (recursive : Bool) → Proc F FilestoreResponseStatusCode
  list_directory dir_name file_name recursive = pure not_performed

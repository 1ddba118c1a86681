-- ===== src/Restricted/Operations.antt =====
-- The operations of `RestrictedFilestore` of src/cfdppy/restricted_filestore.py: those of the native
-- filestore at localised paths. The tree describes the host where the paths are plain: the host
-- resolves a ".." part of a localised path, and then leaves the restricted directory.
use cfdp_py.Proc.{Proc}
use cfdp_py.Protocol.{ChecksumType}
use cfdp_py.Base.{Option, List, Bool, ℕ}
use cfdp_py.Filestore
use cfdp_py.Filestore.{Tree, FilestoreResponseStatusCode}
use cfdp_py.Filestore.Check
use cfdp_py.Filestore.Check.{CrcCalculator}
use cfdp_py.Filestore.Listing
use cfdp_py.Filestore.Listing.{Host}
use cfdp_py.Restricted.{make_local}
use cfdp_py.FilePath.{FilePath, Text}

module _ (restricted_path : FilePath) where
  unfoldable pub read_data : FilePath → (offset read_len : Option ℕ) → Proc Tree (List ℕ)
  read_data p offset read_len = Filestore.read_data (make_local restricted_path p) offset read_len

  unfoldable pub is_directory : FilePath → Proc Tree Bool
  is_directory p = Filestore.is_directory (make_local restricted_path p)

  unfoldable pub filename_from_full_path : FilePath → Text
  filename_from_full_path p = Filestore.filename_from_full_path (make_local restricted_path p)

  unfoldable pub file_exists : FilePath → Proc Tree Bool
  file_exists p = Filestore.file_exists (make_local restricted_path p)

  unfoldable pub truncate_file : FilePath → Proc Tree (Unit {0})
  truncate_file p = Filestore.truncate_file (make_local restricted_path p)

  unfoldable pub file_size : (directory_size : ℕ) → FilePath → Proc Tree ℕ
  file_size directory_size p = Filestore.file_size directory_size (make_local restricted_path p)

  unfoldable pub write_data : FilePath → List ℕ → (offset : Option ℕ) → Proc Tree (Unit {0})
  write_data p written offset = Filestore.write_data (make_local restricted_path p) written offset

  unfoldable pub create_file : FilePath → Proc Tree FilestoreResponseStatusCode
  create_file p = Filestore.create_file (make_local restricted_path p)

  unfoldable pub delete_file : FilePath → Proc Tree FilestoreResponseStatusCode
  delete_file p = Filestore.delete_file (make_local restricted_path p)

  unfoldable pub rename_file :
      (old_file new_file : FilePath) → Proc Tree FilestoreResponseStatusCode
  rename_file old_file new_file =
      Filestore.rename_file (make_local restricted_path old_file)
        (make_local restricted_path new_file)

  unfoldable pub replace_file :
      (replaced_file source_file : FilePath) → Proc Tree FilestoreResponseStatusCode
  replace_file replaced_file source_file =
      Filestore.replace_file (make_local restricted_path replaced_file)
        (make_local restricted_path source_file)

  unfoldable pub create_directory : FilePath → Proc Tree FilestoreResponseStatusCode
  create_directory p = Filestore.create_directory (make_local restricted_path p)

  unfoldable pub remove_directory :
      FilePath → (recursive : Bool) → Proc Tree FilestoreResponseStatusCode
  remove_directory p recursive = Filestore.remove_directory (make_local restricted_path p) recursive

  unfoldable pub list_directory :
      Host → (dir_name target_file : FilePath) → Proc Tree FilestoreResponseStatusCode
  list_directory host dir_name target_file =
      Listing.list_directory host (make_local restricted_path dir_name)
        (make_local restricted_path target_file)

  module _ {C : Type 0} (crc : CrcCalculator C) where
    unfoldable pub calculate_checksum :
        ChecksumType → FilePath → (size_to_verify segment_len : ℕ) → Proc Tree (List ℕ)
    calculate_checksum kind p size_to_verify segment_len =
        Check.calculate_checksum crc kind (make_local restricted_path p) size_to_verify segment_len

    -- The path is localised here, and once more where the checksum is calculated.
    unfoldable pub verify_checksum :
        (checksum : List ℕ)
        → ChecksumType
        → FilePath
        → (size_to_verify segment_len : ℕ) → Proc Tree Bool
    verify_checksum checksum kind p size_to_verify segment_len =
        Check.verify_checksum calculate_checksum checksum kind (make_local restricted_path p)
          size_to_verify segment_len

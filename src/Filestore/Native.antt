-- ===== src/Filestore/Native.antt =====
-- The two filestores as the filestore of a handler: `NativeFilestore` of src/cfdppy/filestore.py, and
-- `RestrictedFilestore` of src/cfdppy/restricted_filestore.py, which localises every path.
use cfdp_py.Base.{ℕ, some}
use cfdp_py.FilePath.{FilePath}
use cfdp_py.Proc.{skip, ◌>>◌}
use cfdp_py.User.{Vfs}
use cfdp_py.Restricted.{make_local}
use cfdp_py.Filestore.{
  Tree, is_directory, file_exists, truncate_file, create_file, delete_file, file_size, read_data,
  write_data,
}
use cfdp_py.Filestore.Check.{CrcCalculator, calculate_checksum}

unfoldable pub native_filestore :
    {C : Type 0} → (crc : CrcCalculator C) → (directory_size : ℕ) → Vfs Tree
native_filestore crc directory_size = record {
  is_directory = is_directory;
  file_exists = file_exists;
  truncate_file = truncate_file;
  create_file = λ p. (do create_file p; skip);
  delete_file = λ p. (do delete_file p; skip);
  file_size = file_size directory_size;
  read_data = λ p offset read_len. read_data p (some offset) (some read_len);
  write_data = λ p written offset. write_data p written (some offset);
  calculate_checksum = calculate_checksum crc;
}

unfoldable pub restricted_filestore : {F : Type 0} → (restricted_path : FilePath) → Vfs F → Vfs F
restricted_filestore restricted_path vfs =
    let local = make_local restricted_path in
    record {
      is_directory = λ p. vfs.is_directory (local p);
      file_exists = λ p. vfs.file_exists (local p);
      truncate_file = λ p. vfs.truncate_file (local p);
      create_file = λ p. vfs.create_file (local p);
      delete_file = λ p. vfs.delete_file (local p);
      file_size = λ p. vfs.file_size (local p);
      read_data = λ p offset read_len. vfs.read_data (local p) offset read_len;
      write_data = λ p written offset. vfs.write_data (local p) written offset;
      calculate_checksum =
          λ kind p size segment_len. vfs.calculate_checksum kind (local p) size segment_len;
    }

-- ===== src/Examples/Filestore.antt =====
-- The theorems of the filestore at a tree with one file, and a calculator that adds the bytes.
use cfdp_py.Base.{ℕ, ◌+◌, ◌%◌, ◌^◌, ◌≡◌, refl, true, some, List, [], ◌∷◌, ◌++◌, arith}
use cfdp_py.FilePath.{FilePath, path_eq, is_relative_to}
use cfdp_py.Protocol.{crc_32}
use cfdp_py.Proc.{returned, ◌>>◌}
use cfdp_py.Crc.{calc_modular_checksum, pack_u32, weighted, first, calc_modular_checksum_lem}
use cfdp_py.Restricted.{make_local, make_local_lem}
use cfdp_py.Filestore.{Tree, file, node, entry, write_data, read_data}
use cfdp_py.Filestore.Files.{write_data-read_data}
use cfdp_py.Filestore.Check.{
  CrcCalculator, IsIncremental, calculate_checksum, calculate_checksum-crc,
}
use cfdp_py.Examples.{a_path, total}

abbrev one_entry : Tree
one_entry = (a_path, file (11 ∷ 22 ∷ 33 ∷ [])) ∷ []

finds_file : node a_path one_entry ≡ some (file (11 ∷ 22 ∷ 33 ∷ []))
unfolding node entry path_eq
finds_file = refl

write_data_example :
    ((write_data a_path (44 ∷ 55 ∷ []) (some 4) >> read_data a_path (some 4) (some 2)) one_entry).0
    ≡ returned (44 ∷ 55 ∷ [])
write_data_example =
    write_data-read_data a_path (11 ∷ 22 ∷ 33 ∷ []) 4 44 (55 ∷ []) one_entry finds_file

abbrev pub adder : CrcCalculator ℕ
adder = record {
  null_checksum_u32 = 0 ∷ 0 ∷ 0 ∷ 0 ∷ [];
  start = λ kind. 0;
  update = λ c bytes. c + total bytes;
  digest = λ c. pack_u32 c;
}

total-append : (xs ys : List ℕ) → total (xs ++ ys) ≡ total xs + total ys
total-append [] ys = omega arith
total-append (x ∷ xs) ys = omega (arith, total-append xs ys)

pub adder-IsIncremental : IsIncremental adder
adder-IsIncremental = record {
  update-nil = λ c. omega arith;
  update-append = λ c xs ys. omega (arith, total-append xs ys);
}

calculate_checksum_example :
    calculate_checksum adder crc_32 a_path 3 2 one_entry ≡ (returned (pack_u32 66), one_entry)
calculate_checksum_example =
    calculate_checksum-crc adder crc_32 a_path 3 1 (11 ∷ 22 ∷ 33 ∷ []) one_entry adder-IsIncremental
      refl finds_file

modular_example :
    calc_modular_checksum (1 ∷ 2 ∷ 3 ∷ 4 ∷ 5 ∷ [])
    ≡ pack_u32 (weighted first (1 ∷ 2 ∷ 3 ∷ 4 ∷ 5 ∷ []) % 2 ^ 32)
modular_example = calc_modular_checksum_lem (1 ∷ 2 ∷ 3 ∷ 4 ∷ 5 ∷ [])

abbrev a_directory : FilePath
a_directory = record { absolute = true; parts = (b'd' ∷ []) ∷ [] }

make_local_example :
    (is_relative_to (make_local a_directory a_path) a_directory ≡ true)
    × (make_local a_directory (make_local a_directory a_path) ≡ make_local a_directory a_path)
make_local_example = make_local_lem a_directory a_path

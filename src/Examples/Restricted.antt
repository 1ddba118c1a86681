-- ===== src/Examples/Restricted.antt =====
-- A restricted filestore at "/d", beside a file "/f".
use cfdp_py.FilePath.Equal.{text_eq→eq}
use cfdp_py.Filestore.{is_there, directory, file, node, Tree}
use cfdp_py.Base.{All, arith, refl, ◌≡◌, some, Bool, List, true, false, [], ◌∷◌}
use cfdp_py.Restricted.Confined.{HasDirectory, IsSameOutside}
use cfdp_py.Restricted.Calls.{HandsOnPlainPaths, Operation, performs, performs-same}
use cfdp_py.Restricted.Calls
use cfdp_py.FilePath.{text_eq_refl, FilePath, Text, strip_prefix, is_relative_to}
use cfdp_py.Examples.{a_path}

abbrev d_directory : FilePath
d_directory = record { absolute = true; parts = (b'd' ∷ []) ∷ [] }

abbrev beside : Tree
beside = (a_path, file (1 ∷ [])) ∷ (d_directory, directory) ∷ []

abbrev attempts : List Operation
attempts =
    Calls.create a_path
    ∷ Calls.write a_path (7 ∷ []) (some 0)
    ∷ Calls.delete a_path
    ∷ Calls.remove d_directory true
    ∷ []

root_above : HasDirectory d_directory beside
unfolding is_relative_to strip_prefix node
root_above = record { above = λ q o a. of_parts q.absolute q.parts o a }
  where
    of_parts :
        (absolute : Bool) (parts : List Text)
        → is_relative_to (record { absolute = absolute; parts = parts }) d_directory ≡ false
        → is_relative_to d_directory (record { absolute = absolute; parts = parts }) ≡ true
        → is_there (node (record { absolute = absolute; parts = parts }) beside) ≡ true
    of_parts absolute [] o a = refl
    of_parts absolute (x ∷ []) o a =
        ground (arith, text_eq→eq x (b'd' ∷ []), text_eq_refl (b'd' ∷ []))
    of_parts absolute (x ∷ y ∷ ys) o a = ground arith

performs-same_example :
    IsSameOutside d_directory beside (performs d_directory attempts beside)
    × All (HandsOnPlainPaths d_directory) attempts
performs-same_example =
    performs-same d_directory beside root_above attempts refl
      ((refl, tt), ((refl, tt), ((refl, tt), ((refl, tt), tt))))

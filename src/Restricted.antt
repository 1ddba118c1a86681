-- ===== src/Restricted.antt =====
-- src/cfdppy/restricted_filestore.py: the paths of the restricted filestore.
pub mod Operations
pub mod Confined
pub mod Calls
use cfdp_py.Base.{
  ◌≡◌, refl, inl, inr, true, false, not, some, List, [], ◌∷◌, ◌++◌, if◌then◌else◌, arith,
  Bool-cases,
}
use cfdp_py.FilePath.{
  IsPlain, has_dots, text_eq_refl, Text, FilePath, strip_prefix, is_relative_to, joinpath,
}

-- `file.relative_to(file.anchor)` of an absolute path.
abbrev pub without_anchor : FilePath → FilePath
without_anchor p = record { absolute = false; parts = p.parts }

unfoldable pub make_local : (restricted_path : FilePath) → FilePath → FilePath
unfolding is_relative_to joinpath
make_local restricted_path file =
    if not (is_relative_to file restricted_path)
    then if file.absolute
      then joinpath restricted_path (without_anchor file)
      else joinpath restricted_path file
    else file

strip-append : (xs ys : List Text) → strip_prefix xs (xs ++ ys) ≡ some ys
unfolding strip_prefix
strip-append [] ys = refl
strip-append (x ∷ xs) ys = ground (arith, text_eq_refl x, strip-append xs ys)

joined-below : (r p : FilePath) → p.absolute ≡ false → is_relative_to (joinpath r p) r ≡ true
unfolding is_relative_to joinpath
joined-below r p a = elim (Bool-cases r.absolute) [
  | inl e ↦ ground (arith, strip-append r.parts p.parts)
  | inr e ↦ ground (arith, strip-append r.parts p.parts)
]

make_local-below : (r file : FilePath) → is_relative_to (make_local r file) r ≡ true
unfolding make_local
make_local-below r file = elim (Bool-cases (is_relative_to file r)) [
  | inl e ↦ ground (arith, e)
  | inr e ↦ elim (Bool-cases file.absolute) [
    | inl a ↦ ground (arith, e, a, joined-below r (without_anchor file) refl)
    | inr a ↦ ground (arith, e, a, joined-below r file a)
  ]
]

-- Every path of the restricted filestore is below its directory, and localising a path once more,
-- as `verify_checksum` does, changes nothing.
pub make_local_lem :
    (r file : FilePath)
    → (is_relative_to (make_local r file) r ≡ true)
      × (make_local r (make_local r file) ≡ make_local r file)
make_local_lem r file =
    (make_local-below r file, again (make_local r file) (make_local-below r file))
  where
    again : (p : FilePath) → is_relative_to p r ≡ true → make_local r p ≡ p
    again p e = unfold make_local in ground (arith, e)

dots-append :
    (xs ys : List Text) → has_dots xs ≡ false → has_dots ys ≡ false → has_dots (xs ++ ys) ≡ false
dots-append [] ys a b = b
dots-append (x ∷ xs) ys a b = ground (arith, a, dots-append xs ys)

pub make_local-IsPlain :
    (r file : FilePath) → IsPlain r → IsPlain file → IsPlain (make_local r file)
unfolding make_local joinpath
make_local-IsPlain r file a b = elim (Bool-cases (is_relative_to file r)) [
  | inl e ↦ ground (arith, e)
  | inr e ↦ elim (Bool-cases file.absolute) [
    | inl i ↦ ground (arith, e, i, dots-append r.parts file.parts a b)
    | inr i ↦ ground (arith, e, i, dots-append r.parts file.parts a b)
  ]
]

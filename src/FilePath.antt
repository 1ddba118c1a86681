-- ===== src/FilePath.antt =====
-- What the handlers and the filestores use of `pathlib.Path` on a POSIX host. A text is the list of
-- its code points. As in pathlib, a ".." part is kept as it is. The host resolves it when it opens a
-- path; the tree of the native filestore does not, and describes the host for plain paths only.
pub mod Equal
use cfdp_py.Base.{
  ◌≡◌, refl, arith, ℕ, Bool, true, false, not, ◌&&◌, ◌||◌, List, [], ◌∷◌, ◌++◌, Option, none, some,
  ◌==◌, if◌then◌else◌,
}

abbrev pub Text : Type 0
Text = List ℕ

abbrev pub text_eq : Text → Text → Bool
text_eq [] [] = true
text_eq [] (y ∷ ys) = false
text_eq (x ∷ xs) [] = false
text_eq (x ∷ xs) (y ∷ ys) = x == y && text_eq xs ys

pub text_eq_refl : (t : Text) → text_eq t t ≡ true
text_eq_refl [] = refl
text_eq_refl (c ∷ cs) = ground (arith, text_eq_refl cs)

-- The anchor ("/" or nothing) and the parts below it.
pub record FilePath : Type 0 where
  pub absolute : Bool
  pub parts : List Text

abbrev pub has_dots : List Text → Bool
has_dots [] = false
has_dots (x ∷ xs) = text_eq x (b'.' ∷ b'.' ∷ []) || has_dots xs

-- No part is "..".
abbrev pub IsPlain : FilePath → Type 0
IsPlain p = has_dots p.parts ≡ false

abbrev pub empty : FilePath
empty = record { absolute = false; parts = [] }

abbrev pub bool_eq : Bool → Bool → Bool
bool_eq true b = b
bool_eq false b = not b

abbrev pub parts_eq : List Text → List Text → Bool
parts_eq [] [] = true
parts_eq [] (y ∷ ys) = false
parts_eq (x ∷ xs) [] = false
parts_eq (x ∷ xs) (y ∷ ys) = text_eq x y && parts_eq xs ys

unfoldable pub path_eq : FilePath → FilePath → Bool
path_eq p q = bool_eq p.absolute q.absolute && parts_eq p.parts q.parts

-- Empty parts and "." parts are dropped.
abbrev keep_part : Text → List Text → List Text
keep_part [] rest = rest
keep_part (c ∷ cs) rest = if text_eq (c ∷ cs) (b'.' ∷ []) then rest else (c ∷ cs) ∷ rest

-- The parts of a text, `part` being the one under way.
unfoldable pub split : Text → Text → List Text
split part [] = keep_part part []
split part (c ∷ cs) =
    let next = keep_part part (split [] cs) in
    let more = split (part ++ c ∷ []) cs in if c == b'/' then next else more

abbrev starts_at_root : Text → Bool
starts_at_root [] = false
starts_at_root (c ∷ cs) = c == b'/'

-- `Path(text)`.
unfoldable pub of_text : Text → FilePath
unfolding split
of_text t = record { absolute = starts_at_root t; parts = split [] t }

abbrev last_or_empty : List Text → Text
last_or_empty [] = []
last_or_empty (x ∷ []) = x
last_or_empty (x ∷ y ∷ ys) = last_or_empty (y ∷ ys)

-- `path.name`.
unfoldable pub name : FilePath → Text
name p = last_or_empty p.parts

-- `p.joinpath(q)`: an absolute `q` replaces `p`.
unfoldable pub joinpath : FilePath → FilePath → FilePath
joinpath p q =
    if q.absolute then q else record { absolute = p.absolute; parts = p.parts ++ q.parts }

abbrev join_parts : List Text → Text
join_parts [] = []
join_parts (x ∷ []) = x
join_parts (x ∷ y ∷ ys) = x ++ b'/' ∷ join_parts (y ∷ ys)

-- `path.as_posix()`; the empty relative path is ".".
unfoldable pub as_posix : FilePath → Text
as_posix p =
    if p.absolute
    then b'/' ∷ join_parts p.parts
    else elim p.parts [ [] ↦ b'.' ∷ [] | x ∷ xs ↦ join_parts (x ∷ xs) ]

-- Whether the parts of the first list begin the second, and the rest.
unfoldable pub strip_prefix : List Text → List Text → Option (List Text)
strip_prefix [] ys = some ys
strip_prefix (x ∷ xs) [] = none
strip_prefix (x ∷ xs) (y ∷ ys) = if text_eq x y then strip_prefix xs ys else none

abbrev pub is_some {ℓ} : {A : Type ℓ} → Option A → Bool
is_some none = false
is_some (some a) = true

-- `path.is_relative_to(other)`.
unfoldable pub is_relative_to : FilePath → FilePath → Bool
unfolding strip_prefix
is_relative_to p other =
    bool_eq p.absolute other.absolute && is_some (strip_prefix other.parts p.parts)

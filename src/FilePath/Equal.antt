-- ===== src/FilePath/Equal.antt =====
-- The comparisons of paths are equality and a partial order.
use cfdp_py.Filestore.{all_but_last}
use cfdp_py.Base.{◌++◌, arith, refl, List, Bool, ◌≡◌, true, false, [], ◌∷◌}
use cfdp_py.FilePath.{
  text_eq_refl, Text, FilePath, text_eq, parts_eq, path_eq, bool_eq, strip_prefix, is_some,
  is_relative_to,
}

pub text_eq→eq : (s t : Text) → text_eq s t ≡ true → s ≡ t
text_eq→eq [] [] e = refl
text_eq→eq [] (y ∷ ys) e = cc
text_eq→eq (x ∷ xs) [] e = cc
text_eq→eq (x ∷ xs) (y ∷ ys) e = ground (arith, text_eq→eq xs ys)

parts_eq→eq : (s t : List Text) → parts_eq s t ≡ true → s ≡ t
parts_eq→eq [] [] e = refl
parts_eq→eq [] (y ∷ ys) e = cc
parts_eq→eq (x ∷ xs) [] e = cc
parts_eq→eq (x ∷ xs) (y ∷ ys) e = ground (arith, text_eq→eq x y, parts_eq→eq xs ys)

bool_eq→eq : (a b : Bool) → bool_eq a b ≡ true → a ≡ b
bool_eq→eq true true e = refl
bool_eq→eq true false e = cc
bool_eq→eq false true e = cc
bool_eq→eq false false e = refl

pub bool_eq_refl : (a : Bool) → bool_eq a a ≡ true
bool_eq_refl true = refl
bool_eq_refl false = refl

pub path_eq→eq : (p q : FilePath) → path_eq p q ≡ true → p ≡ q
unfolding path_eq
path_eq→eq p q e = ground (arith, bool_eq→eq p.absolute q.absolute, parts_eq→eq p.parts q.parts)

parts_eq_refl : (t : List Text) → parts_eq t t ≡ true
parts_eq_refl [] = refl
parts_eq_refl (x ∷ xs) = ground (arith, text_eq_refl x, parts_eq_refl xs)

pub path_eq_refl : (p : FilePath) → path_eq p p ≡ true
unfolding path_eq
path_eq_refl p = ground (arith, parts_eq_refl p.parts)

prefix_trans :
    (xs ys zs : List Text)
    → is_some (strip_prefix xs ys) ≡ true
    → is_some (strip_prefix ys zs) ≡ true
    → is_some (strip_prefix xs zs) ≡ true
unfolding strip_prefix
prefix_trans [] ys zs e f = refl
prefix_trans (x ∷ xs) [] zs e f = cc
prefix_trans (x ∷ xs) (y ∷ ys) [] e f = cc
prefix_trans (x ∷ xs) (y ∷ ys) (z ∷ zs) e f = ground (arith, text_eq→eq x y, prefix_trans xs ys zs)

pub is_relative_to_trans :
    (p q r : FilePath)
    → is_relative_to p q ≡ true
    → is_relative_to q r ≡ true
    → is_relative_to p r ≡ true
unfolding is_relative_to
is_relative_to_trans p q r e f =
    ground (arith, bool_eq→eq p.absolute q.absolute, prefix_trans r.parts q.parts p.parts)

pub prefix_append :
    (xs ys zs : List Text)
    → is_some (strip_prefix (xs ++ ys) zs) ≡ true
    → is_some (strip_prefix xs zs) ≡ true
unfolding strip_prefix
prefix_append [] ys zs e = refl
prefix_append (x ∷ xs) ys [] e = cc
prefix_append (x ∷ xs) ys (z ∷ zs) e = ground (arith, prefix_append xs ys zs)

-- Of two paths above one path, one is above the other.
prefix_linear :
    (xs ys zs : List Text)
    → is_some (strip_prefix xs zs) ≡ true
    → is_some (strip_prefix ys zs) ≡ true
    → is_some (strip_prefix xs ys) ≡ false
    → is_some (strip_prefix ys xs) ≡ true
unfolding strip_prefix
prefix_linear [] ys zs e f g = cc
prefix_linear (x ∷ xs) [] zs e f g = refl
prefix_linear (x ∷ xs) (y ∷ ys) [] e f g = cc
prefix_linear (x ∷ xs) (y ∷ ys) (z ∷ zs) e f g =
    ground (arith, text_eq→eq x z, text_eq→eq y z, text_eq_refl z, prefix_linear xs ys zs)

pub above_or_below :
    (p q r : FilePath)
    → is_relative_to p r ≡ true
    → is_relative_to p q ≡ true
    → is_relative_to q r ≡ false
    → is_relative_to r q ≡ true
unfolding is_relative_to
above_or_below p q r e f g = ground (
  arith,
  bool_eq→eq p.absolute q.absolute,
  bool_eq→eq p.absolute r.absolute,
  bool_eq_refl p.absolute,
  prefix_linear r.parts q.parts p.parts,
)

pub prefix_but_last : (parts : List Text) → is_some (strip_prefix (all_but_last parts) parts) ≡ true
unfolding strip_prefix
prefix_but_last [] = refl
prefix_but_last (x ∷ []) = refl
prefix_but_last (x ∷ y ∷ ys) = ground (arith, text_eq_refl x, prefix_but_last (y ∷ ys))

-- ===== src/Restricted/Confined.antt =====
-- The restricted filestore changes nothing outside of its directory.
pub mod Steps
use cfdp_py.Proc.{modify}
use cfdp_py.Base.{
  none, some, subst, ◌∙◌, sym, Option, ap, refl, inr, inl, arith, Bool-cases, ◌≡◌, Bool, true,
  false, [], ◌∷◌,
}
use cfdp_py.FilePath.{FilePath, Text, path_eq, is_relative_to}
use cfdp_py.FilePath.Equal.{
  path_eq→eq, path_eq_refl, is_relative_to_trans, prefix_append, above_or_below,
}
use cfdp_py.Filestore.{
  directory, file, bytes_of, open_existing, is_there, Node, Tree, node, entry, put, drop_where,
}
use cfdp_py.Proc.Holds.{Keeps, keeps_rules}

entry-put_other :
    (p q : FilePath) (n : Node) (tree : Tree)
    → path_eq p q ≡ false
    → entry p (put q n tree) ≡ entry p tree
unfolding entry put
entry-put_other p q n [] e = ground arith
entry-put_other p q n ((k, m) ∷ tree) e = elim (Bool-cases (path_eq q k)) [
  | inl h ↦
      let apart : path_eq p k ≡ false = ap (path_eq p) (sym (path_eq→eq q k h)) ∙ e in
      ground (arith, h, apart)
  | inr h ↦ ground (arith, h, entry-put_other p q n tree)
]

entry-drop_where :
    (p : FilePath) (gone : FilePath → Bool) (tree : Tree)
    → gone p ≡ false
    → entry p (drop_where gone tree) ≡ entry p tree
unfolding entry drop_where
entry-drop_where p gone [] e = refl
entry-drop_where p gone ((k, m) ∷ tree) e = elim (Bool-cases (path_eq p k)) [
  | inl h ↦
      let stays : gone k ≡ false = ap gone (sym (path_eq→eq p k h)) ∙ e in ground (arith, h, stays)
  | inr h ↦ ground (arith, h, entry-drop_where p gone tree)
]

node-same : (p : FilePath) (s t : Tree) → entry p s ≡ entry p t → node p s ≡ node p t
unfolding node
node-same p s t e = ground (arith, e)

-- Every directory above this one is there.
pub record HasDirectory (r : FilePath) (tree : Tree) : Type 0 where
  pub above :
      (q : FilePath)
      → is_relative_to q r ≡ false
      → is_relative_to r q ≡ true
      → is_there (node q tree) ≡ true

-- Outside of the directory nothing differs.
pub record IsSameOutside (r : FilePath) (before after : Tree) : Type 0 where
  pub same : (p : FilePath) → is_relative_to p r ≡ false → node p after ≡ node p before

module _ (r : FilePath) (before : Tree) where
  abbrev O : Tree → Type 0
  O tree = IsSameOutside r before tree

  different :
      (p q : FilePath)
      → is_relative_to p r ≡ false
      → is_relative_to q r ≡ true
      → path_eq p q ≡ false
  different p q a b = elim (Bool-cases (path_eq p q)) [
    | inl h ↦
        let e : is_relative_to p r ≡ is_relative_to q r =
          ap (λ x. is_relative_to x r) (path_eq→eq p q h) in
        cc
    | inr h ↦ h
  ]

  put_kept : (q : FilePath) (n : Node) → is_relative_to q r ≡ true → Keeps O (modify (put q n))
  unfolding modify
  put_kept q n i = record {
    keep = λ s h. record {
      same = λ p o.
          node-same p (put q n s) s (entry-put_other p q n s (different p q o i)) ∙ h.same p o;
    };
  }

  drop_kept :
      (gone : FilePath → Bool)
      → ((q : FilePath) → gone q ≡ true → is_relative_to q r ≡ true)
      → Keeps O (modify (drop_where gone))
  unfolding modify
  drop_kept gone inside = record {
    keep = λ s h. record {
      same = λ p o.
          node-same p (drop_where gone s) s (entry-drop_where p gone s (stays p o)) ∙ h.same p o;
    };
  }
    where
      stays : (p : FilePath) → is_relative_to p r ≡ false → gone p ≡ false
      stays p o = elim (Bool-cases (gone p)) [ inl g ↦ let i = inside p g in cc | inr g ↦ g ]

  drop_one_kept :
      (q : FilePath) → is_relative_to q r ≡ true → Keeps O (modify (drop_where (path_eq q)))
  drop_one_kept q i =
      drop_kept (path_eq q) (λ p e. subst (λ x. is_relative_to x r ≡ true) (path_eq→eq q p e) i)

  drop_below_kept :
      (q : FilePath)
      → is_relative_to q r ≡ true
      → Keeps O (modify (drop_where (λ p. is_relative_to p q)))
  drop_below_kept q i = drop_kept (λ p. is_relative_to p q) (λ p e. is_relative_to_trans p q r e i)

  bytes_of_kept : (n : Option Node) → Keeps O (bytes_of n)
  bytes_of_kept none = search (keeps_rules) depth 6
  bytes_of_kept (some directory) = search (keeps_rules) depth 6
  bytes_of_kept (some (file bytes)) = search (keeps_rules) depth 6

  open_existing_kept : (p : FilePath) → Keeps O (open_existing p)
  unfolding open_existing
  open_existing_kept p = search (keeps_rules, bytes_of_kept) depth 10

  ruleset kept = (keeps_rules, put_kept, drop_one_kept, drop_below_kept, open_existing_kept)

-- ===== src/Restricted/Confined/Steps.antt =====
-- The operations of the filestore at paths inside of a directory change nothing outside of it.
use cfdp_py.Proc.{modify, ◌>>◌, raise, pure}
use cfdp_py.FilePath.{strip_prefix, is_some, Text, is_relative_to, FilePath}
use cfdp_py.Base.{
  refl, inr, sym, subst, inl, arith, Bool-cases, ◌∙◌, append_assoc, ap, ◌++◌, none, some, ℕ, ◌≡◌,
  Option, List, Bool, true, [], ◌∷◌,
}
use cfdp_py.Filestore.{
  create_success, create_not_allowed, put, file, node, is_there, file, Node, node, Tree,
  truncate_file, write_data, make_one, make_directories, create_file, on_create_error, delete_file,
  move_file, rename_file, replace_file, remove_directory, create_directory,
}
use cfdp_py.Filestore.Listing.{
  Host, open_new, open_listing, append_text, write_listing, list_directory,
}
use cfdp_py.Proc.Holds.{Keeps-gets, Keeps-if, Keeps-pure, Keeps-try, Keeps, Keeps-bind}
use cfdp_py.FilePath.Equal.{bool_eq_refl, prefix_append, prefix_but_last, above_or_below}
use cfdp_py.Proc.Steps.{gets_bind}
use cfdp_py.Proc.Holds.{after_bind}
use cfdp_py.FilePath.{Text, bool_eq, strip_prefix}
use cfdp_py.Filestore.{all_but_last, file_exists, directory}
use cfdp_py.Restricted.Confined.{O, HasDirectory, kept, put_kept}

module _ (r : FilePath) (before : Tree) where
  abbrev Inside : FilePath → Type 0
  Inside p = is_relative_to p r ≡ true

  pub truncate_kept : (p : FilePath) → Inside p → Keeps (O r before) (truncate_file p)
  unfolding truncate_file
  truncate_kept p i = search (kept) depth 10

  pub write_kept :
      (p : FilePath) (written : List ℕ) (offset : Option ℕ)
      → Inside p
      → Keeps (O r before) (write_data p written offset)
  unfolding write_data
  write_kept p written offset i = search (kept) depth 10

  pub delete_kept : (p : FilePath) → Inside p → Keeps (O r before) (delete_file p)
  unfolding delete_file
  delete_kept p i = search (kept) depth 12

  move_kept :
      (from to : FilePath) → Inside from → Inside to → Keeps (O r before) (move_file from to)
  unfolding move_file
  move_kept from to i j = search (kept) depth 20

  pub rename_kept : (p q : FilePath) → Inside p → Inside q → Keeps (O r before) (rename_file p q)
  unfolding rename_file
  rename_kept p q i j = search (kept, move_kept) depth 20

  pub replace_kept : (p q : FilePath) → Inside p → Inside q → Keeps (O r before) (replace_file p q)
  unfolding replace_file
  replace_kept p q i j = search (kept, move_kept) depth 20

  pub remove_directory_kept :
      (p : FilePath) (recursive : Bool)
      → Inside p
      → Keeps (O r before) (remove_directory p recursive)
  unfolding remove_directory
  remove_directory_kept p recursive i = search (kept) depth 20

  pub create_directory_kept : (p : FilePath) → Inside p → Keeps (O r before) (create_directory p)
  unfolding create_directory
  create_directory_kept p i = search (kept) depth 20

  open_new_kept : (p : FilePath) → Inside p → Keeps (O r before) (open_new p)
  unfolding open_new
  open_new_kept p i = search (kept) depth 16

  open_listing_kept : (p : FilePath) → Inside p → Keeps (O r before) (open_listing p)
  unfolding open_listing
  open_listing_kept p i = search (kept, open_new_kept) depth 16

  append_kept : (p : FilePath) (text : List ℕ) → Inside p → Keeps (O r before) (append_text p text)
  unfolding append_text
  append_kept p text i = search (kept) depth 16

  write_listing_kept :
      (p : FilePath) (printed : Option (List ℕ))
      → Inside p
      → Keeps (O r before) (write_listing p printed)
  write_listing_kept p none i = search (kept) depth 16
  write_listing_kept p (some text) i = search (kept, append_kept) depth 16

  pub list_kept :
      (host : Host) (p q : FilePath) → Inside q → Keeps (O r before) (list_directory host p q)
  unfolding list_directory
  list_kept host p q i = search (kept, open_listing_kept, append_kept, write_listing_kept) depth 20

  module _ (there : HasDirectory r before) where
    make_one_kept :
        (p q : FilePath) (s : Tree) (n : Option Node)
        → node q s ≡ n
        → Inside p
        → is_relative_to p q ≡ true
        → O r before s
        → O r before (make_one q n s).1
    unfolding pure raise
    make_one_kept p q s none e i above h = elim (Bool-cases (is_relative_to q r)) [
      | inl inside ↦ (put_kept r before q directory inside).keep s h
      | inr outside ↦
          let known = there.above q outside (above_or_below p q r i above outside) in
          let same = h.same q outside in absurd (ground (arith, known, same, e))
    ]
    make_one_kept p q s (some directory) e i above h = h
    make_one_kept p q s (some (file bytes)) e i above h = h

    make_directories_kept :
        (p : FilePath) (absolute : Bool) (parts below : List Text)
        → Inside p
        → bool_eq p.absolute absolute ≡ true
        → is_some (strip_prefix (parts ++ below) p.parts) ≡ true
        → Keeps (O r before) (make_directories absolute parts below)
    unfolding make_directories
    make_directories_kept p absolute parts [] i e above = search (kept) depth 6
    make_directories_kept p absolute parts (x ∷ below) i e above =
        let q : FilePath = record { absolute = absolute; parts = parts ++ x ∷ [] } in
        let longer : is_some (strip_prefix ((parts ++ x ∷ []) ++ below) p.parts) ≡ true =
          ap (λ l. is_some (strip_prefix l p.parts)) (append_assoc parts (x ∷ []) below) ∙ above in
        let above_q : is_relative_to p q ≡ true =
          unfold is_relative_to in
          ground (arith, e, prefix_append (parts ++ x ∷ []) below p.parts longer) in
        record {
          keep = λ s h.
              subst (λ o. O r before o.1) (sym (gets_bind (node q) _ s))
                (after_bind (make_one q (node q s))
                  (λ _. make_directories absolute (parts ++ x ∷ []) below) s
                  (make_one_kept p q s (node q s) refl i above_q h)
                  (λ _. make_directories_kept p absolute (parts ++ x ∷ []) below i e longer));
        }

    pub create_file_kept : (p : FilePath) → Inside p → Keeps (O r before) (create_file p)
    unfolding create_file file_exists
    create_file_kept p i =
        let parents =
          make_directories_kept p p.absolute [] (all_but_last p.parts) i (bool_eq_refl p.absolute)
            (prefix_but_last p.parts) in
        let body =
          Keeps-bind (make_directories p.absolute [] (all_but_last p.parts))
            (λ _. do modify (put p (file [])); pure create_success) parents
            (λ _. search (kept) depth 10) in
        Keeps-bind (file_exists p) _ (Keeps-gets (λ tree. is_there (node p tree))) (λ found.
          Keeps-if found (pure create_not_allowed) _ (Keeps-pure create_not_allowed)
            (Keeps-try _ on_create_error body (λ e. Keeps-pure create_not_allowed)))

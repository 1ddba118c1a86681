-- ===== src/Filestore/Create.antt =====
-- A file of the native filestore that is made, or emptied, for a reception.
use cfdp_py.Proc.Steps.{bind_step, gets_bind}
use cfdp_py.Proc.{run, skip, pure, returned, ◌>>◌, gets}
use cfdp_py.Filestore.{
  make_one, open_existing, directory, all_but_last, create_file, truncate_file, file, file_exists,
  put, is_directory, Node, make_directories, Tree, node, entry,
}
use cfdp_py.Base.{
  refl, ap, ◌∙◌, arith, Option, some, none, ◌≡◌, ℕ, ◌++◌, if◌then◌else◌, List, Bool, true, false,
  [], ◌∷◌,
}
use cfdp_py.FilePath.{FilePath, Text}
use cfdp_py.FilePath.Equal.{path_eq_refl}
use cfdp_py.Filestore.Files.{put-node}

-- These directories are there, each below the one before.
abbrev pub DirectoriesThere : (absolute : Bool) → (parts below : List Text) → Tree → Type 0
DirectoriesThere absolute parts [] tree = Unit {0}
DirectoriesThere absolute parts (x ∷ below) tree =
    (node (record { absolute = absolute; parts = parts ++ x ∷ [] }) tree ≡ some directory)
    × DirectoriesThere absolute (parts ++ x ∷ []) below tree

-- A file is there, or its directories are there and it can be made.
pub data CanHold (p : FilePath) (tree : Tree) : Type 0 where
  existing : (old : List ℕ) → node p tree ≡ some (file old) → CanHold p tree
  fresh :
      node p tree ≡ none
      → DirectoriesThere p.absolute [] (all_but_last p.parts) tree
      → CanHold p tree

nothing_made :
    (absolute : Bool) (parts below : List Text) (tree : Tree)
    → DirectoriesThere absolute parts below tree
    → make_directories absolute parts below tree ≡ (returned tt, tree)
unfolding make_directories
nothing_made absolute parts [] tree there = unfold pure in refl
nothing_made absolute parts (x ∷ below) tree there =
    let q : FilePath = record { absolute = absolute; parts = parts ++ x ∷ [] } in
    gets_bind (node q) _ tree
    ∙ bind_step (make_one q (node q tree)) _ tree tree tt
        (ap (λ n. make_one q n tree) there.0 ∙ (unfold pure in refl))
    ∙ nothing_made absolute (parts ++ x ∷ []) below tree there.1

entry-put_new :
    (p : FilePath) (n : Node) (tree : Tree) → entry p tree ≡ none → entry p (put p n tree) ≡ some n
unfolding entry put
entry-put_new p n [] e = ground (arith, path_eq_refl p)
entry-put_new p n ((q, m) ∷ tree) e = ground (arith, entry-put_new p n tree)

node-put_new :
    (p : FilePath) (n : Node) (tree : Tree) → node p tree ≡ none → node p (put p n tree) ≡ some n
unfolding node
node-put_new p n tree e = of_parts p.parts e
  where
    of_parts :
        (parts : List Text)
        → elim parts as (λ _. Option Node) [ [] ↦ some directory | x ∷ xs ↦ entry p tree ] ≡ none
        → elim parts as (λ _. Option Node) [ [] ↦ some directory | x ∷ xs ↦ entry p (put p n tree) ]
          ≡ some n
    of_parts [] e = ground arith
    of_parts (x ∷ xs) e = entry-put_new p n tree e

module _ (p : FilePath) (tree : Tree) where
  pub made_there : CanHold p tree → node p (put p (file []) tree) ≡ some (file [])
  made_there (existing old e) = put-node p old [] tree e
  made_there (fresh e there) = node-put_new p (file []) tree e

  pub no_directory_there : CanHold p tree → is_directory p tree ≡ (returned false, tree)
  unfolding is_directory gets
  no_directory_there (existing old e) = ground (arith, e)
  no_directory_there (fresh e there) = ground (arith, e)

  abbrev pub was_there : CanHold p tree → Bool
  was_there (existing old e) = true
  was_there (fresh e there) = false

  pub looked_up_there : (h : CanHold p tree) → file_exists p tree ≡ (returned (was_there h), tree)
  unfolding file_exists gets
  looked_up_there (existing old e) = ground (arith, e)
  looked_up_there (fresh e there) = ground (arith, e)

  -- The file is emptied or made.
  pub emptied_or_made :
      (h : CanHold p tree)
      → (if was_there h then truncate_file p else (do create_file p; skip)) tree
        ≡ (returned tt, put p (file []) tree)
  emptied_or_made (existing old e) = unfold truncate_file open_existing run in ground (arith, e)
  emptied_or_made (fresh e there) =
      let made = nothing_made p.absolute [] (all_but_last p.parts) tree there in
      unfold create_file file_exists run in ground (arith, e, made)

-- ===== src/Restricted/Calls.antt =====
-- Sequences of calls of the restricted filestore of src/cfdppy/restricted_filestore.py.
use cfdp_py.Filestore.{Tree}
use cfdp_py.FilePath.{IsPlain, FilePath}
use cfdp_py.Base.{All, refl, Bool, Option, ℕ, List, [], ◌∷◌}
use cfdp_py.Restricted.{make_local-IsPlain, make_local, make_local_lem}
use cfdp_py.Restricted.Operations
use cfdp_py.Restricted.Confined.{HasDirectory, IsSameOutside}
use cfdp_py.Restricted.Confined.Steps.{
  truncate_kept, write_kept, create_file_kept, delete_kept, rename_kept, replace_kept,
  create_directory_kept, remove_directory_kept, list_kept,
}
use cfdp_py.Filestore.Listing.{Host}

-- The calls of a restricted filestore that may change something.
pub data Operation : Type 0 where
  truncate : FilePath → Operation
  write : FilePath → List ℕ → Option ℕ → Operation
  create delete : FilePath → Operation
  rename replace : FilePath → FilePath → Operation
  make_directory : FilePath → Operation
  remove : FilePath → Bool → Operation
  list : Host → FilePath → FilePath → Operation

-- The paths that a call is given.
abbrev pub paths_of : Operation → List FilePath
paths_of (truncate p) = p ∷ []
paths_of (write p written offset) = p ∷ []
paths_of (create p) = p ∷ []
paths_of (delete p) = p ∷ []
paths_of (rename p q) = p ∷ q ∷ []
paths_of (replace p q) = p ∷ q ∷ []
paths_of (make_directory p) = p ∷ []
paths_of (remove p recursive) = p ∷ []
paths_of (list host p q) = p ∷ q ∷ []

-- No path of the call has a ".." part, and neither has one that it hands on to the native filestore.
abbrev pub HasPlainPaths : Operation → Type 0
HasPlainPaths o = All IsPlain (paths_of o)

abbrev pub HandsOnPlainPaths : FilePath → Operation → Type 0
HandsOnPlainPaths r o = All (λ p. IsPlain (make_local r p)) (paths_of o)

paths-IsPlain :
    (r : FilePath) (ps : List FilePath)
    → IsPlain r
    → All IsPlain ps
    → All (λ p. IsPlain (make_local r p)) ps
paths-IsPlain r [] a b = tt
paths-IsPlain r (p ∷ ps) a (b, bs) = (make_local-IsPlain r p a b, paths-IsPlain r ps a bs)

operations-HandsOnPlainPaths :
    (r : FilePath) (os : List Operation)
    → IsPlain r
    → All HasPlainPaths os
    → All (HandsOnPlainPaths r) os
operations-HandsOnPlainPaths r [] a b = tt
operations-HandsOnPlainPaths r (o ∷ os) a (b, bs) =
    (paths-IsPlain r (paths_of o) a b, operations-HandsOnPlainPaths r os a bs)

-- The tree after a call, whether it returns or raises.
unfoldable pub perform : FilePath → Operation → Tree → Tree
perform r (truncate p) t = (Operations.truncate_file r p t).1
perform r (write p written offset) t = (Operations.write_data r p written offset t).1
perform r (create p) t = (Operations.create_file r p t).1
perform r (delete p) t = (Operations.delete_file r p t).1
perform r (rename p q) t = (Operations.rename_file r p q t).1
perform r (replace p q) t = (Operations.replace_file r p q t).1
perform r (make_directory p) t = (Operations.create_directory r p t).1
perform r (remove p recursive) t = (Operations.remove_directory r p recursive t).1
perform r (list host p q) t = (Operations.list_directory r host p q t).1

unfoldable pub performs : FilePath → List Operation → Tree → Tree
performs r [] t = t
performs r (o ∷ os) t = performs r os (perform r o t)

module _ (r : FilePath) (before : Tree) (there : HasDirectory r before) where
  perform-same :
      (o : Operation) (t : Tree) → IsSameOutside r before t → IsSameOutside r before (perform r o t)
  unfolding perform Operations.truncate_file Operations.write_data Operations.create_file
      Operations.delete_file Operations.rename_file Operations.replace_file
      Operations.create_directory Operations.remove_directory Operations.list_directory
  perform-same (truncate p) t h = (truncate_kept r before _ (make_local_lem r p).0).keep t h
  perform-same (write p written offset) t h =
      (write_kept r before _ written offset (make_local_lem r p).0).keep t h
  perform-same (create p) t h = (create_file_kept r before there _ (make_local_lem r p).0).keep t h
  perform-same (delete p) t h = (delete_kept r before _ (make_local_lem r p).0).keep t h
  perform-same (rename p q) t h =
      (rename_kept r before _ _ (make_local_lem r p).0 (make_local_lem r q).0).keep t h
  perform-same (replace p q) t h =
      (replace_kept r before _ _ (make_local_lem r p).0 (make_local_lem r q).0).keep t h
  perform-same (make_directory p) t h =
      (create_directory_kept r before _ (make_local_lem r p).0).keep t h
  perform-same (remove p recursive) t h =
      (remove_directory_kept r before _ recursive (make_local_lem r p).0).keep t h
  perform-same (list host p q) t h = (list_kept r before host _ _ (make_local_lem r q).0).keep t h

  performs_from :
      (os : List Operation) (t : Tree)
      → IsSameOutside r before t
      → IsSameOutside r before (performs r os t)
  unfolding performs
  performs_from [] t h = h
  performs_from (o ∷ os) t h = performs_from os (perform r o t) (perform-same o t h)

  -- Where the restricted directory and the paths of the calls have no ".." part and the directories
  -- above the restricted directory exist, no sequence of calls of the restricted filestore, whether
  -- the calls return or raise, makes, changes or removes anything at a path that is not below the
  -- restricted directory by its parts; and no path that they hand on to the native filestore has a
  -- ".." part, which the host would resolve.
  pub performs-same :
      (os : List Operation)
      → IsPlain r
      → All HasPlainPaths os
      → IsSameOutside r before (performs r os before) × All (HandsOnPlainPaths r) os
  performs-same os a b = (
    performs_from os before (record { same = λ p o. refl }),
    operations-HandsOnPlainPaths r os a b,
  )

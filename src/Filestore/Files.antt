-- ===== src/Filestore/Files.antt =====
-- Reading back what was written through the filestore.
use cfdp_py.Base.{
  append-nil, suc, zero, replicate, ◌-◌, ℕ, ◌+◌, ◌-◌, ◌≡◌, refl, sym, ap, ◌∙◌, inl, inr, Option,
  some, List, [], ◌∷◌, ◌++◌, length, take, drop, replicate, arith, length-append, length-replicate,
  length-take, Bool-cases,
}
use cfdp_py.FilePath.{Text, FilePath, path_eq}
use cfdp_py.Proc.{◌>>◌, returned, run}
use cfdp_py.Filestore.{
  Node, file, directory, Tree, entry, put, node, open_existing, read_data, write_data, splice,
}

entry-put :
    (p : FilePath) (n m : Node) (tree : Tree)
    → entry p tree ≡ some m
    → entry p (put p n tree) ≡ some n
unfolding entry put
entry-put p n m [] e = ground arith
entry-put p n m ((q, k) ∷ tree) e = elim (Bool-cases (path_eq p q)) [
  | inl h ↦ ground (arith, h)
  | inr h ↦ ground (arith, h, entry-put p n m tree)
]

-- The first part of an appended list, and what follows it.
module _ {ℓ} {A : Type ℓ} where
  take-append : (xs ys : List A) → take (length xs) (xs ++ ys) ≡ xs
  take-append [] ys = refl
  take-append (x ∷ xs) ys = ap (λ r. x ∷ r) (take-append xs ys)

  drop-append : (xs ys : List A) → drop (length xs) (xs ++ ys) ≡ ys
  drop-append [] ys = refl
  drop-append (x ∷ xs) ys = drop-append xs ys

padded :
    (bytes : List ℕ) (offset : ℕ)
    → length (take offset (bytes ++ replicate (offset - length bytes) 0)) ≡ offset
padded bytes offset = omega (
  arith,
  length-take offset (bytes ++ replicate (offset - length bytes) 0),
  length-append bytes (replicate (offset - length bytes) 0),
  length-replicate {A = ℕ} (offset - length bytes) 0,
)

-- The bytes of a written range are those that were written.
splice-read :
    (bytes : List ℕ) (offset b : ℕ) (written : List ℕ)
    → take (length (b ∷ written)) (drop offset (splice bytes offset (b ∷ written))) ≡ b ∷ written
unfolding splice
splice-read bytes offset b written =
    let front = take offset (bytes ++ replicate (offset - length bytes) 0) in
    let rest = drop (offset + length (b ∷ written)) bytes in
    ap (λ n. take (length (b ∷ written)) (drop n (front ++ (b ∷ written ++ rest))))
      (sym (padded bytes offset))
    ∙ ap (take (length (b ∷ written))) (drop-append front (b ∷ written ++ rest))
    ∙ take-append (b ∷ written) rest

pub put-node :
    (p : FilePath) (bytes more : List ℕ) (tree : Tree)
    → node p tree ≡ some (file bytes)
    → node p (put p (file more) tree) ≡ some (file more)
unfolding node
put-node p bytes more tree e = of_parts p.parts e
  where
    of_parts :
        (parts : List Text)
        → elim parts as (λ _. Option Node) [ [] ↦ some directory | x ∷ xs ↦ entry p tree ]
          ≡ some (file bytes)
        → elim parts as (λ _. Option Node) [
          | [] ↦ some directory
          | x ∷ xs ↦ entry p (put p (file more) tree)
        ]
          ≡ some (file more)
    of_parts [] e = ground arith
    of_parts (x ∷ xs) e = entry-put p (file more) (file bytes) tree e

-- What is written to a file, at any offset, also past the end of the file, is read back from there.
pub write_data-read_data :
    (p : FilePath) (bytes : List ℕ) (offset b : ℕ) (written : List ℕ) (tree : Tree)
    → node p tree ≡ some (file bytes)
    → ((write_data p (b ∷ written) (some offset)
          >> read_data p (some offset) (some (length (b ∷ written))))
        tree).0
      ≡ returned (b ∷ written)
unfolding write_data read_data open_existing run
write_data-read_data p bytes offset b written tree e = ground (
  arith,
  e,
  put-node p bytes (splice bytes offset (b ∷ written)) tree e,
  splice-read bytes offset b written,
)

drop-past : (bytes : List ℕ) (n : ℕ) → drop (length bytes + n) bytes ≡ []
drop-past [] zero = refl
drop-past [] (suc n) = ap (λ k. drop k []) {x = length {A = ℕ} [] + suc n} {y = suc n} (omega arith)
drop-past (x ∷ xs) n =
    ap (λ k. drop k (x ∷ xs)) {x = length (x ∷ xs) + n} {y = suc (length xs + n)} (omega arith)
    ∙ drop-past xs n

-- A write at the end of a file appends.
pub splice-append :
    (bytes written : List ℕ) → splice bytes (length bytes) written ≡ bytes ++ written
unfolding splice
splice-append bytes [] = sym (append-nil bytes)
splice-append bytes (d ∷ written) =
    let gap = replicate (length bytes - length bytes) 0 in
    ap (λ r. take (length bytes) (bytes ++ gap) ++ (d ∷ written ++ r))
      (drop-past bytes (length (d ∷ written)))
    ∙ ap (λ r. r ++ (d ∷ written ++ [])) (take-append bytes gap)
    ∙ ap (λ r. bytes ++ r) (append-nil (d ∷ written))

-- A write at the end of a file that is there.
pub write_data-append :
    (p : FilePath) (bytes written : List ℕ) (tree : Tree)
    → node p tree ≡ some (file bytes)
    → write_data p written (some (length bytes)) tree
      ≡ (returned tt, put p (file (bytes ++ written)) tree)
unfolding write_data open_existing run
write_data-append p bytes written tree e = ground (arith, e, splice-append bytes written)

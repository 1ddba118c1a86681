-- ===== src/Filestore/Check.antt =====
-- `calculate_checksum` of src/cfdppy/filestore.py.
use cfdp_py.Base.{
  ℕ, zero, suc, ◌+◌, ◌-◌, ◌≤◌, ◌≡◌, sym, ap, ◌∙◌, min, Bool, true, false, List, [], ◌∷◌, ◌++◌, ◌==◌,
  if◌then◌else◌, take, drop, arith, some,
}
use cfdp_py.FilePath.{text_eq, FilePath}
use cfdp_py.Protocol.{ChecksumType, null_checksum, modular, crc_32, crc_32c}
use cfdp_py.Errors.{value_error, out_of_rounds, checksum_not_implemented}
use cfdp_py.Proc.{Proc, returned, pure, raise, gets, when, run, ◌>>=◌, ◌>>◌}
use cfdp_py.Crc.{calc_modular_checksum}
use cfdp_py.Filestore.{Tree, node, is_there, open_existing, file}
use cfdp_py.Errors

-- A calculator of the library `crcmod`: its state, and what `update` and `digest` do to it; and the
-- null checksum of the packet library.
pub record CrcCalculator (C : Type 0) : Type 0 where
  pub null_checksum_u32 : List ℕ
  pub start : ChecksumType → C
  pub update : C → List ℕ → C
  pub digest : C → List ℕ

module _ {ℓ} {A : Type ℓ} where
  drop-drop : (m n : ℕ) (xs : List A) → drop n (drop m xs) ≡ drop (m + n) xs
  drop-drop zero n xs = ap (λ k. drop k xs) {x = n} {y = zero + n} (omega arith)
  drop-drop (suc m) zero [] = ap (λ k. drop k []) {x = suc m} {y = suc m + zero} (omega arith)
  drop-drop (suc m) (suc n) [] =
      ap (λ k. drop k []) {x = suc (m + suc n)} {y = suc m + suc n} (omega arith)
  drop-drop (suc m) n (x ∷ xs) =
      drop-drop m n xs ∙ ap (λ k. drop k (x ∷ xs)) {x = suc (m + n)} {y = suc m + n} (omega arith)

  pub take-take : (m n : ℕ) (xs : List A) → take m xs ++ take n (drop m xs) ≡ take (m + n) xs
  take-take zero n xs = ap (λ k. take k xs) {x = n} {y = zero + n} (omega arith)
  take-take (suc m) zero [] = ap (λ k. take k []) {x = suc m} {y = suc m + zero} (omega arith)
  take-take (suc m) (suc n) [] =
      ap (λ k. take k []) {x = suc (m + suc n)} {y = suc m + suc n} (omega arith)
  take-take (suc m) n (x ∷ xs) =
      ap (λ r. x ∷ r) (take-take m n xs)
      ∙ ap (λ k. take k (x ∷ xs)) {x = suc (m + n)} {y = suc m + n} (omega arith)

  take-take-drop :
      (m n offset : ℕ) (bytes : List A)
      → take m (drop offset bytes) ++ take n (drop (offset + m) bytes)
        ≡ take (m + n) (drop offset bytes)
  take-take-drop m n offset bytes =
      ap (λ r. take m (drop offset bytes) ++ take n r) (sym (drop-drop offset m bytes))
      ∙ take-take m n (drop offset bytes)

-- `verify_checksum` of the interface, with the checksum that the object calculates.
unfoldable pub verify_checksum :
    (calculate : ChecksumType → FilePath → (size_to_verify segment_len : ℕ) → Proc Tree (List ℕ))
    → (checksum : List ℕ) → ChecksumType
    → FilePath
    → (size_to_verify segment_len : ℕ) → Proc Tree Bool
verify_checksum calculate checksum kind p size_to_verify segment_len = do
  calculated ← calculate kind p size_to_verify segment_len
  pure (text_eq calculated checksum)

module _ {C : Type 0} (crc : CrcCalculator C) where
  -- The loop over the opened file, with a bound on its rounds: the calculator after it.
  unfoldable pub update_chunks :
      (rounds segment_len : ℕ) → List ℕ → (current_offset left : ℕ) → C → Proc Tree C
  update_chunks rounds segment_len bytes current_offset zero c = pure c
  update_chunks zero segment_len bytes current_offset (suc left) c = raise out_of_rounds
  update_chunks (suc rounds) segment_len bytes current_offset (suc left) c =
      let read_len = min segment_len (suc left) in
      update_chunks rounds segment_len bytes (current_offset + read_len) (suc left - read_len)
        (crc.update c (take read_len (drop current_offset bytes)))

  abbrev pub is_crc : ChecksumType → Bool
  is_crc crc_32 = true
  is_crc crc_32c = true
  is_crc _ = false

  -- A segment has at least one byte, so the size bounds the rounds.
  unfoldable pub crc_checksum :
      ChecksumType → FilePath → (size_to_verify segment_len : ℕ) → Proc Tree (List ℕ)
  crc_checksum kind p size_to_verify segment_len = do
    when (segment_len == 0) (raise value_error)
    if is_crc kind
        then (do
          bytes ← open_existing p
          c ← update_chunks size_to_verify segment_len bytes 0 size_to_verify (crc.start kind)
          pure (crc.digest c))
        else raise (checksum_not_implemented kind)

  unfoldable pub modular_checksum : FilePath → Proc Tree (List ℕ)
  modular_checksum p = do bytes ← open_existing p; pure (calc_modular_checksum bytes)

  unfoldable pub checksum_of_file :
      ChecksumType → FilePath → (size_to_verify segment_len : ℕ) → Proc Tree (List ℕ)
  checksum_of_file modular p size_to_verify segment_len = modular_checksum p
  checksum_of_file kind p size_to_verify segment_len =
      crc_checksum kind p size_to_verify segment_len

  unfoldable pub checksum_if_there :
      ChecksumType → FilePath → (size_to_verify segment_len : ℕ) → Proc Tree (List ℕ)
  checksum_if_there kind p size_to_verify segment_len = do
    found ← gets (node p)
    if is_there found
        then checksum_of_file kind p size_to_verify segment_len
        else raise Errors.file_not_found_error

  unfoldable pub calculate_checksum :
      ChecksumType → FilePath → (size_to_verify segment_len : ℕ) → Proc Tree (List ℕ)
  calculate_checksum null_checksum p size_to_verify segment_len = pure crc.null_checksum_u32
  calculate_checksum kind p size_to_verify segment_len =
      checksum_if_there kind p size_to_verify segment_len

  -- A calculator that does not care how its input is cut.
  pub record IsIncremental : Type 0 where
    pub update-nil : (c : C) → crc.update c [] ≡ c
    pub update-append :
        (c : C) (xs ys : List ℕ) → crc.update (crc.update c xs) ys ≡ crc.update c (xs ++ ys)

  -- The loop ends, and has read the bytes up to the size.
  update_chunks_lem :
      (rounds limit : ℕ) (bytes : List ℕ) (offset left : ℕ) (c : C) (tree : Tree)
      → IsIncremental
      → left ≤ rounds
      → update_chunks rounds (suc limit) bytes offset left c tree
        ≡ (returned (crc.update c (take left (drop offset bytes))), tree)
  unfolding update_chunks pure
  update_chunks_lem rounds limit bytes offset zero c tree i b =
      ap (λ d. (returned d, tree)) (sym (i.update-nil c))
  update_chunks_lem zero limit bytes offset (suc left) c tree i b = ground arith
  update_chunks_lem (suc rounds) limit bytes offset (suc left) c tree i b =
      let k = min (suc limit) (suc left) in
      update_chunks_lem rounds limit bytes (offset + k) (suc left - k)
        (crc.update c (take k (drop offset bytes))) tree i (omega arith)
      ∙ ap (λ d. (returned d, tree))
          (i.update-append c (take k (drop offset bytes))
              (take (suc left - k) (drop (offset + k) bytes))
            ∙ ap (crc.update c) (
                take-take-drop k (suc left - k) offset bytes
                ∙ ap (λ n. take n (drop offset bytes)) {y = suc left} (omega arith)))

  -- For a calculator that does not care how its input is cut, the CRC of a file is the digest of its
  -- bytes up to the size to verify, whatever the segment length, which is at least one byte: the loop
  -- ends and leaves no byte out.
  pub calculate_checksum-crc :
      (kind : ChecksumType) (p : FilePath) (size limit : ℕ) (bytes : List ℕ) (tree : Tree)
      → IsIncremental
      → is_crc kind ≡ true
      → node p tree ≡ some (file bytes)
      → calculate_checksum kind p size (suc limit) tree
        ≡ (returned (crc.digest (crc.update (crc.start kind) (take size bytes))), tree)
  unfolding calculate_checksum checksum_if_there checksum_of_file crc_checksum open_existing run
  calculate_checksum-crc kind p size limit bytes tree i k e =
      ground (arith, e, update_chunks_lem size limit bytes 0 size (crc.start kind) tree i)

-- ===== src/Crc.antt =====
-- src/cfdppy/crc.py: the modular checksum of the bytes of a file.
use cfdp_py.Base.{ℕ, ◌+◌, ◌*◌, ◌/◌, ◌%◌, ◌^◌, ◌≡◌, ap, List, [], ◌∷◌, arith}

-- `int.from_bytes(data.ljust(4, b"\0"), byteorder="big")` of the four bytes.
abbrev pub word : ℕ → ℕ → ℕ → ℕ → ℕ
word a b c d = a * 16777216 + b * 65536 + c * 256 + d

-- The loop of `calc_modular_checksum`, on the bytes that are left to read.
unfoldable pub add_words : (checksum : ℕ) → List ℕ → ℕ
add_words checksum [] = checksum
add_words checksum (a ∷ []) = checksum + word a 0 0 0
add_words checksum (a ∷ b ∷ []) = checksum + word a b 0 0
add_words checksum (a ∷ b ∷ c ∷ []) = checksum + word a b c 0
add_words checksum (a ∷ b ∷ c ∷ d ∷ rest) = add_words (checksum + word a b c d) rest

-- `struct.pack("!I", checksum)`.
unfoldable pub pack_u32 : ℕ → List ℕ
pack_u32 n = n / 16777216 % 256 ∷ n / 65536 % 256 ∷ n / 256 % 256 ∷ n % 256 ∷ []

unfoldable pub calc_modular_checksum : List ℕ → List ℕ
unfolding add_words pack_u32
calc_modular_checksum bytes = pack_u32 (add_words 0 bytes % 2 ^ 32)

-- The place of a byte in its word, and the weight of the place.
pub data Place : Type 0 where
  first second third fourth : Place

abbrev pub next : Place → Place
next first = second
next second = third
next third = fourth
next fourth = first

abbrev pub weight : Place → ℕ
weight first = 2 ^ 24
weight second = 2 ^ 16
weight third = 2 ^ 8
weight fourth = 1

-- The sum of the bytes by their places, the first of which is given.
abbrev pub weighted : Place → List ℕ → ℕ
weighted place [] = 0
weighted place (b ∷ bs) = b * weight place + weighted (next place) bs

add_words-weighted : (n : ℕ) (bytes : List ℕ) → add_words n bytes ≡ n + weighted first bytes
unfolding add_words
add_words-weighted n [] = omega arith
add_words-weighted n (a ∷ []) = omega arith
add_words-weighted n (a ∷ b ∷ []) = omega arith
add_words-weighted n (a ∷ b ∷ c ∷ []) = omega arith
add_words-weighted n (a ∷ b ∷ c ∷ d ∷ rest) =
    omega (arith, add_words-weighted (n + word a b c d) rest)

-- The checksum is the sum of the bytes weighted by their places in words of four bytes, modulo
-- 2 ^ 32, as four bytes with the most significant first; the last word is filled with zeros.
pub calc_modular_checksum_lem :
    (bytes : List ℕ) → calc_modular_checksum bytes ≡ pack_u32 (weighted first bytes % 2 ^ 32)
unfolding calc_modular_checksum
calc_modular_checksum_lem bytes =
    let total : add_words 0 bytes ≡ weighted first bytes =
      omega (arith, add_words-weighted 0 bytes) in
    ap (λ n. pack_u32 (n % 2 ^ 32)) total

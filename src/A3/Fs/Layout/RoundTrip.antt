-- ===== src/A3/Fs/Layout/RoundTrip.antt =====
-- a3/fs/inode.h: an inode written to a sector and read back is the same inode.
use mock_os.Prelude.{
  ℕ, zero, suc, ◌+◌, ◌*◌, ◌/◌, ◌%◌, ◌^◌, ◌<◌, ◌≡◌, refl, ◌∙◌, ap, Bool, true, false, not, ◌==◌,
  List, [], ◌∷◌, ◌++◌, length, take, get_or, arith,
}
use mock_os.A3.Fs.Layout.{
  InodeDisk, word, word_bytes, decode_blocks, encode_blocks, bool_byte, encode_inode, decode_inode,
  direct_blocks_count,
}

-- A number that fits into 32 bits, and a list of such.
abbrev pub IsWord : ℕ → Type 0
IsWord n = n < 2 ^ 32

abbrev pub AllWords : List ℕ → Type 0
AllWords [] = Unit {0}
AllWords (n ∷ ns) = IsWord n × AllWords ns

word-word_bytes :
    (n : ℕ) → IsWord n → word (n % 256) (n / 256 % 256) (n / 65536 % 256) (n / 16777216 % 256) ≡ n
unfolding word
word-word_bytes n h = omega arith

-- Block numbers in front of other bytes are read back.
pub decode-encode_blocks :
    (ns : List ℕ) (rest : List ℕ)
    → AllWords ns
    → decode_blocks (encode_blocks ns ++ rest) ≡ ns ++ decode_blocks rest
unfolding decode_blocks encode_blocks word_bytes
decode-encode_blocks [] rest h = refl
decode-encode_blocks (n ∷ ns) rest h = cc (word-word_bytes n h.0, decode-encode_blocks ns rest h.1)

-- The bytes of block numbers are four for each.
pub length-encode_blocks : (ns : List ℕ) → length (encode_blocks ns) ≡ 4 * length ns
unfolding encode_blocks word_bytes
length-encode_blocks [] = refl
length-encode_blocks (n ∷ ns) = omega (arith, length-encode_blocks ns)

-- The fields of an inode fit into their bytes.
pub record IsStorable (d : InodeDisk) : Type 0 where
  pub direct : AllWords d.direct_blocks
  pub direct_count : length d.direct_blocks ≡ direct_blocks_count
  pub indirect : IsWord d.indirect_block
  pub doubly : IsWord d.doubly_indirect_block
  pub length_word : IsWord d.length
  pub magic_word : IsWord d.magic

module _ {ℓ} {A : Type ℓ} where
  pub take-front : (xs ys : List A) (n : ℕ) → length xs ≡ n → take n (xs ++ ys) ≡ xs
  take-front [] ys zero h = refl
  take-front [] ys (suc n) h = absurd (omega arith)
  take-front (x ∷ xs) ys zero h = absurd (omega arith)
  take-front (x ∷ xs) ys (suc n) h = ap (λ t. x ∷ t) (take-front xs ys n (omega arith))

  pub get_or-behind :
      (xs ys : List A) (i n : ℕ) (a : A)
      → length xs ≡ n
      → get_or (xs ++ ys) (n + i) a ≡ get_or ys i a
  get_or-behind [] ys i zero a h = let e : zero + i ≡ i = omega arith in rw e
  get_or-behind [] ys i (suc n) a h = absurd (omega arith)
  get_or-behind (x ∷ xs) ys i zero a h = absurd (omega arith)
  get_or-behind (x ∷ xs) ys i (suc n) a h =
      let e : suc n + i ≡ suc (n + i) = omega arith in
      rw e (get_or-behind xs ys i n a (omega arith))

-- The words behind the direct blocks.
tail_words : InodeDisk → List ℕ
tail_words d =
    d.indirect_block
    ∷ d.doubly_indirect_block
    ∷ word (bool_byte d.is_dir) 0 0 0
    ∷ d.length
    ∷ d.magic
    ∷ []

words_lem :
    (d : InodeDisk)
    → IsStorable d
    → decode_blocks (encode_inode d) ≡ d.direct_blocks ++ tail_words d
unfolding encode_inode decode_blocks word_bytes tail_words
words_lem d h =
    decode-encode_blocks d.direct_blocks _ h.direct
    ∙ cc (
      word-word_bytes d.indirect_block h.indirect,
      word-word_bytes d.doubly_indirect_block h.doubly,
      word-word_bytes d.length h.length_word,
      word-word_bytes d.magic h.magic_word,
    )

flag_byte : (b : Bool) → not (bool_byte b == 0) ≡ b
flag_byte true = refl
flag_byte false = refl

is_dir_lem : (d : InodeDisk) → IsStorable d → get_or (encode_inode d) 500 0 ≡ bool_byte d.is_dir
unfolding encode_inode word_bytes
is_dir_lem d h =
    get_or-behind (encode_blocks d.direct_blocks) _ 8 492 0
      (omega (arith, length-encode_blocks d.direct_blocks, h.direct_count))

-- The bytes of an inode give it back.
pub decode-encode_inode : (d : InodeDisk) → IsStorable d → decode_inode (encode_inode d) ≡ d
unfolding decode_inode tail_words
decode-encode_inode d h =
    let words = words_lem d h in
    let field = λ (k : ℕ).
      ap (λ ws. get_or ws (123 + k) 0) words
      ∙ get_or-behind d.direct_blocks (tail_words d) k 123 0 h.direct_count in
    let flag = ap (λ b. not (b == 0)) (is_dir_lem d h) ∙ flag_byte d.is_dir in
    let direct =
      ap (take 123) words ∙ take-front d.direct_blocks (tail_words d) 123 h.direct_count in
    λ i. record {
      direct_blocks = direct i;
      indirect_block = field 0 i;
      doubly_indirect_block = field 1 i;
      is_dir = flag i;
      length = field 3 i;
      magic = field 4 i;
    }

-- ===== src/A3/Fs/Layout.antt =====
-- a3/fs/inode.h and a3/fs/inode.c: the on-disk inode and the sectors of block numbers, in memory and
-- as the 512 bytes of a sector. Numbers of 32 bits are stored with the low byte first.
pub mod RoundTrip
use mock_os.Prelude.{
  ℕ, ◌+◌, ◌*◌, ◌/◌, ◌%◌, ◌^◌, Bool, true, false, not, List, [], ◌∷◌, ◌++◌, take, drop, get_or, ◌==◌,
}
use mock_os.A3.Fs.Block.{Sector}

abbrev pub block_sector_size : ℕ
block_sector_size = 512

abbrev pub inode_magic : ℕ
inode_magic = 0x494e4f44

abbrev pub direct_blocks_count : ℕ
direct_blocks_count = 123

abbrev pub indirect_blocks_per_sector : ℕ
indirect_blocks_per_sector = 128

-- `struct inode_disk`
pub record InodeDisk : Type 0 where
  pub direct_blocks : List ℕ
  pub indirect_block : ℕ
  pub doubly_indirect_block : ℕ
  pub is_dir : Bool
  pub length : ℕ
  pub magic : ℕ

-- A number of 32 bits and its four bytes.
unfoldable pub word : ℕ → ℕ → ℕ → ℕ → ℕ
word a b c d = a + 256 * b + 65536 * c + 16777216 * d

unfoldable pub word_bytes : ℕ → List ℕ
word_bytes n = n % 256 ∷ n / 256 % 256 ∷ n / 65536 % 256 ∷ n / 16777216 % 256 ∷ []

-- `struct inode_indirect_block_sector`, and the bytes that it lies in.
unfoldable pub decode_blocks : List ℕ → List ℕ
decode_blocks (a ∷ b ∷ c ∷ d ∷ rest) = word a b c d ∷ decode_blocks rest
decode_blocks _ = []

unfoldable pub encode_blocks : List ℕ → List ℕ
encode_blocks [] = []
encode_blocks (n ∷ ns) = word_bytes n ++ encode_blocks ns

abbrev pub bool_byte : Bool → ℕ
bool_byte true = 1
bool_byte false = 0

-- The bytes of a `struct inode_disk`, as they lie in memory: the source copies the structure from and
-- to a sector. They are 125 block numbers, a truth value with three bytes of padding, the length and
-- the magic number.
unfoldable pub encode_inode : InodeDisk → Sector
encode_inode d =
    encode_blocks d.direct_blocks
    ++ (word_bytes d.indirect_block
        ++ (word_bytes d.doubly_indirect_block
            ++ (bool_byte d.is_dir ∷ 0 ∷ 0 ∷ 0 ∷ (word_bytes d.length ++ word_bytes d.magic))))

unfoldable pub decode_inode : Sector → InodeDisk
decode_inode s =
    let words = decode_blocks s in
    record {
      direct_blocks = take 123 words;
      indirect_block = get_or words 123 0;
      doubly_indirect_block = get_or words 124 0;
      is_dir = not (get_or s 500 0 == 0);
      length = get_or words 126 0;
      magic = get_or words 127 0;
    }

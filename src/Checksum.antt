-- ===== src/Checksum.antt =====
-- The checksum of Source/ryazha-clk/sysmodule/src/util/crc32.cpp. A file is the list of its bytes.
pub mod Chunks
use Prim.Native.Nat.{bit_and, bit_xor}
use rcu.Base.{
  ℕ, zero, suc, ◌-◌, ◌/◌, ◌%◌, ◌^◌, Option, none, some, List, [], ◌∷◌, length, take, drop, u32,
}

-- `crc = (crc >> 1) ^ (0xEDB88320 & -(crc & 1))`, with the minus of 32 bits.
unfoldable pub crc_bit : ℕ → ℕ
crc_bit crc = bit_xor (crc / 2) (bit_and 0xEDB88320 (u32 (2 ^ 32 - crc % 2)))

-- The inner loop, and the round of a byte.
abbrev pub crc_bits : ℕ → ℕ → ℕ
crc_bits zero crc = crc
crc_bits (suc j) crc = crc_bits j (crc_bit crc)

unfoldable pub crc_byte : ℕ → ℕ → ℕ
crc_byte crc byte = crc_bits 8 (bit_xor crc byte)

-- The outer loop.
abbrev pub crc_bytes : ℕ → List ℕ → ℕ
crc_bytes crc [] = crc
crc_bytes crc (b ∷ bs) = crc_bytes (crc_byte crc b) bs

-- `~crc`.
abbrev pub complement : ℕ → ℕ
complement crc = 2 ^ 32 - 1 - crc

-- `crc32`.
unfoldable pub crc32 : List ℕ → ℕ
crc32 bytes = complement (crc_bytes 0xFFFFFFFF bytes)

-- The loop of `checksum_file`, where `rest` is what `fread` has not given yet: with fuel for its
-- rounds, of which `none` says that they ran out.
unfoldable pub read_chunks : ℕ → ℕ → List ℕ → Option ℕ
read_chunks zero crc rest = none
read_chunks (suc fuel) crc [] = some crc
read_chunks (suc fuel) crc (b ∷ bs) =
    read_chunks fuel (crc_bytes crc (take 1024 (b ∷ bs))) (drop 1024 (b ∷ bs))

-- `checksum_file`; `none` is a file that cannot be opened.
unfoldable pub checksum_file : Option (List ℕ) → ℕ
checksum_file none = 0
checksum_file (some file) = elim (read_chunks (suc (length file)) 0xFFFFFFFF file) [
  | none ↦ 0
  | some crc ↦ complement crc
]

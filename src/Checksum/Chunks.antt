-- ===== src/Checksum/Chunks.antt =====
-- Reading a file in pieces gives the checksum of the whole.
use rcu.Base.{
  ℕ, zero, suc, ◌<◌, ◌≡◌, refl, sym, ap, ◌∙◌, some, List, [], ◌∷◌, ◌++◌, arith, length, take, drop,
  length-drop, take-append-drop,
}
use rcu.Checksum.{crc_byte, crc_bytes, crc32, read_chunks, checksum_file}

crc_bytes-append :
    (crc : ℕ) (xs ys : List ℕ) → crc_bytes crc (xs ++ ys) ≡ crc_bytes (crc_bytes crc xs) ys
crc_bytes-append crc [] ys = refl
crc_bytes-append crc (x ∷ xs) ys = crc_bytes-append (crc_byte crc x) xs ys

read_chunks_lem :
    (fuel crc : ℕ) (rest : List ℕ)
    → length rest < fuel
    → read_chunks fuel crc rest ≡ some (crc_bytes crc rest)
unfolding read_chunks
read_chunks_lem zero crc rest h = absurd (omega arith)
read_chunks_lem (suc fuel) crc [] h = refl
read_chunks_lem (suc fuel) crc (b ∷ bs) h =
    read_chunks_lem fuel (crc_bytes crc (take 1024 (b ∷ bs))) (drop 1024 (b ∷ bs))
      (omega (arith, length-drop 1024 (b ∷ bs)))
    ∙ ap some (
        sym (crc_bytes-append crc (take 1024 (b ∷ bs)) (drop 1024 (b ∷ bs)))
        ∙ ap (crc_bytes crc) (take-append-drop 1024 (b ∷ bs)))

-- `checksum_file`, which reads 1024 bytes at a time, comes to its end on every file that can be opened
-- and gives what `crc32` gives for all of its bytes.
pub checksum_file-crc32 : (file : List ℕ) → checksum_file (some file) ≡ crc32 file
unfolding checksum_file crc32
checksum_file-crc32 file =
    rw (checksum_file, read_chunks_lem (suc (length file)) 0xFFFFFFFF file (omega arith)) refl

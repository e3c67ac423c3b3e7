-- ===== src/Tests/Kips.antt =====
-- Checksums, and the settings in hoc.kip.
use rcu.Base.{
  ℕ, zero, suc, ◌≡◌, ◌≢◌, ◌⊎◌, inl, refl, none, some, true, List, [], ◌∷◌, ◌++◌, ◌^◌, ◌+◌, length,
  u32,
}
use rcu.Checksum.{crc_bit, crc_byte, crc32, checksum_file}
use rcu.Checksum.Chunks.{checksum_file-crc32}
use rcu.Config.Store.{Line, Section}
use rcu.Kip.{
  is_magic, scan, find_from, read_at, write_at, cust_find_offset, cust_read_table, cust_write_table,
  word, overwrite,
}
use rcu.Kip.Key
use rcu.Kip.Find.{cust_find_offset_lem}
use rcu.Kip.Table.{cust_read_table-write}
use rcu.Kip.Copied.{written, read}
use rcu.Kip.Data.{Kip, Env, refusal, put_fields, get_fields, set_kip_data}
use rcu.Kip.Data.Fields.{get_fields-put_fields}
use rcu.Kip.Data.Stored.{set_kip_data-stored}
use rcu.Kip.Data.Refused.{OnlyNotes, Agrees, set_kip_data-refused}
use rcu.Tests.Configs.{list_ini, blank}

-- The check value of CRC-32.
crc32_check : crc32 (b'1' ∷ b'2' ∷ b'3' ∷ b'4' ∷ b'5' ∷ b'6' ∷ b'7' ∷ b'8' ∷ b'9' ∷ []) ≡ 0xcbf43926
unfolding crc32 crc_byte crc_bit
crc32_check = refl

checksum_file-crc32_example : checksum_file (some (1 ∷ 2 ∷ [])) ≡ crc32 (1 ∷ 2 ∷ [])
checksum_file-crc32_example = checksum_file-crc32 (1 ∷ 2 ∷ [])

abbrev zeros : ℕ → List ℕ
zeros zero = []
zeros (suc n) = 0 ∷ zeros n

-- A table of a revision and version, with all settings 0.
abbrev table_of : ℕ → ℕ → List ℕ
table_of rev version = b'C' ∷ b'U' ∷ b'S' ∷ b'T' ∷ rev ∷ 0 ∷ 0 ∷ 0 ∷ version ∷ 0 ∷ 0 ∷ 0 ∷ zeros 644

abbrev table : List ℕ
table = table_of 4 240

-- The magic stands across the first two reads of 512 bytes.
abbrev file : List ℕ
file = zeros 510 ++ (table ++ (7 ∷ []))

file_offset : cust_find_offset file ≡ some 510
unfolding cust_find_offset find_from scan is_magic
file_offset = refl

cust_find_offset_lem_example : cust_find_offset file ≡ scan file
cust_find_offset_lem_example = cust_find_offset_lem file

has_table : cust_read_table (some file) ≡ some table
unfolding cust_read_table read_at cust_find_offset find_from scan is_magic
has_table = refl

abbrev other_table : List ℕ
other_table = table_of 5 241

abbrev overwritten : List ℕ
overwritten = overwrite 510 other_table file

writes : cust_write_table other_table (some file) ≡ some overwritten
unfolding cust_write_table write_at cust_find_offset find_from scan is_magic
writes = refl

starts : is_magic other_table ≡ true
unfolding is_magic
starts = refl

cust_read_table-write_example :
    (cust_read_table (some overwritten) ≡ some other_table) × (length overwritten ≡ length file)
cust_read_table-write_example =
    cust_read_table-write other_table file overwritten refl starts writes

get_fields-put_fields_example :
    get_fields read (put_fields written (λ k. 2 ^ 32 + k) table) (λ k. 9) Key.hp_mode
    ≡ u32 (2 ^ 32 + Key.hp_mode)
get_fields-put_fields_example =
    get_fields-put_fields 3 Key.hp_mode (λ k. 2 ^ 32 + k) (λ k. 9) table refl (inl (refl, refl))

abbrev kip : Kip (List Line)
kip = record {
  file = some file;
  available = true;
  config = record blank { values = λ k. k };
  ini_file = [];
  cust_rev = 0;
  kip_version = 0;
  notes = [];
}

abbrev env : Env (List Line)
env = record { ini = list_ini; can_write = true }

agrees : refusal (word 1 table) (word 2 table) ≡ none
unfolding refusal word
agrees = refl

puts : (s : Section) (ls : List Line) (f : List Line) → env.ini.put_section s ls f ≢ none
puts s ls f e = cc e

set_kip_data-stored_example :
    (new t : List ℕ) × ((set_kip_data env kip).file ≡ some new)
    × (length new ≡ length file)
    × (cust_read_table (some new) ≡ some t)
    × (word 3 t ≡ u32 Key.hp_mode)
set_kip_data-stored_example =
    set_kip_data-stored env kip file table 3 Key.hp_mode refl has_table agrees refl
      (inl (refl, refl))

abbrev old_kip : Kip (List Line)
old_kip = record kip { file = some (table_of 3 231) }

set_kip_data-refused_example :
    OnlyNotes old_kip.file old_kip (set_kip_data env old_kip) ⊎ Agrees old_kip.file
set_kip_data-refused_example = set_kip_data-refused env old_kip

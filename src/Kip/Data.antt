-- ===== src/Kip/Data.antt =====
-- `SetKipData`, `GetKipData` and `MigrateKipData` of Source/ryazha-clk/sysmodule/src/file/kip.cpp. The
-- log and the texts of the notifications are left out.
pub mod Fields
pub mod Stored
pub mod Refused
use rcu.Base.{
  ℕ, ◌^◌, ◌%◌, Bool, true, false, not, ◌&&◌, ◌||◌, Option, none, some, List, [], ◌∷◌, ltb, leb,
  ◌==◌, ◌/=◌, if◌then◌else◌, u8, u32,
}
use rcu.Config.Values.{Values, put_value}
use rcu.Config.Store.{Ini, Config}
use rcu.Config.Write.{set_config_values}
use rcu.Config.Key.{is_first_load}
use rcu.Checksum.{checksum_file}
use rcu.Kip.{word, put_word, cust_read_table, cust_write_table}
use rcu.Kip.Key
use rcu.Kip.Field
use rcu.Kip.Copied.{written, read}

-- What `writeNotification` is called for.
pub data Note : Type 0 where
  opening_failed read_failed outdated_kip outdated_sysmodule write_failed config_set_failed : Note
  kip_updated installed : Note

-- The file hoc.kip, the globals, config.ini, the fields of the context that are set here, and the
-- notifications, the newest first.
pub record Kip (F : Type 0) : Type 0 where
  pub file : Option (List ℕ)
  pub available : Bool
  pub config : Config
  pub ini_file : F
  pub cust_rev : ℕ
  pub kip_version : ℕ
  pub notes : List Note

-- minIni, and whether hoc.kip can be opened for writing.
pub record Env (F : Type 0) : Type 0 where
  pub ini : Ini F
  pub can_write : Bool

abbrev pub note : {F : Type 0} → Note → Kip F → Kip F
note n k = record k { notes = n ∷ k.notes }

-- `CUST_REV` and `KIP_VERSION`, which the build defines.
abbrev pub cust_rev : ℕ
cust_rev = 4

abbrev pub kip_version : ℕ
kip_version = 240

-- The test of the versions: what is wrong, if something is.
unfoldable pub refusal : ℕ → ℕ → Option Note
refusal rev version =
    if ltb rev cust_rev || ltb version kip_version
    then some outdated_kip
    else if ltb cust_rev rev || ltb kip_version version
    then some outdated_sysmodule
    else none

-- The settings copied into the fields, in turn.
unfoldable pub put_fields : List (ℕ × ℕ) → Values → List ℕ → List ℕ
put_fields [] values t = t
put_fields ((w, k) ∷ fields) values t = put_fields fields values (put_word w (u32 (values k)) t)

-- The fields copied into the settings, in turn.
unfoldable pub get_fields : List (ℕ × ℕ) → List ℕ → Values → Values
get_fields [] t values = values
get_fields ((w, k) ∷ fields) t values = get_fields fields t (put_value k (word w t) values)

-- `if (!cust_write_table(…))`.
abbrev pub stored : {F : Type 0} → Option (List ℕ) → Kip F → Kip F
stored none k = note write_failed k
stored (some file) k = record k { file = some file }

-- `if (config::SetConfigValues(&configValues, true))`.
abbrev pub configured : {F : Type 0} → Bool × (F × Config) → Kip F → Kip F
configured (true, (ini_file, config)) k = record k { config = config; ini_file = ini_file }
configured (false, (ini_file, config)) k =
    note config_set_failed (record k { config = config; ini_file = ini_file })

-- The part of `SetKipData` after the table has been written, or not.
unfoldable pub save_checksum : {F : Type 0} → Env F → Kip F → Kip F
save_checksum env k =
    configured
      (set_config_values env.ini (put_value Key.kip_crc32 (checksum_file k.file) k.config.values)
        true k.ini_file k.config)
      k

-- The part after the test of the versions.
unfoldable pub write_settings : {F : Type 0} → Env F → List ℕ → Option Note → Kip F → Kip F
write_settings env table (some n) k = note n k
write_settings env table none k = save_checksum env (
    stored
      (if env.can_write
        then cust_write_table (put_fields written k.config.values table) k.file
        else none)
      k)

abbrev pub set_with : {F : Type 0} → Env F → Option (List ℕ) → Kip F → Kip F
set_with env none k = note read_failed k
set_with env (some table) k =
    write_settings env table (refusal (word Field.cust_rev table) (word Field.kip_version table)) k

-- By what `fopen` gives.
abbrev pub set_opened : {F : Type 0} → Env F → Option (List ℕ) → Kip F → Kip F
set_opened env none k = note opening_failed (record k { available = false })
set_opened env (some file) k =
    set_with env (cust_read_table (some file)) (record k { available = true })

-- `SetKipData`.
unfoldable pub set_kip_data : {F : Type 0} → Env F → Kip F → Kip F
set_kip_data env k = set_opened env k.file k

-- `MigrateKipData`, which ignores what `SetConfigValues` returns.
unfoldable pub migrate_kip_data : {F : Type 0} → Env F → ℕ → Kip F → Kip F
migrate_kip_data env version k =
    let old = k.config.values in
    let values =
      if ltb (u32 (old Key.kip_version)) 240 && leb 240 version
      then put_value Key.mariko_gpu_boot_volt 800 old
      else old in
    let (ini_file, config) = (set_config_values env.ini values true k.ini_file k.config).1 in
    record k { config = config; ini_file = ini_file }

-- The part of `GetKipData` after the test of the versions; `values` is `configValues`.
unfoldable pub read_settings : {F : Type 0} → Env F → List ℕ → Values → Option Note → Kip F → Kip F
read_settings env table values (some n) k = note n k
read_settings env table values none k =
    let versions =
      put_value Key.kip_version (word Field.kip_version table)
        (put_value Key.cust_rev (word Field.cust_rev table) values) in
    configured (set_config_values env.ini (get_fields read table versions) true k.ini_file k.config)
      (record k { kip_version = word Field.kip_version table % 2 ^ 16 })

-- The part from the first load on.
unfoldable pub read_table : {F : Type 0} → Env F → List ℕ → Kip F → Kip F
read_table env table k =
    let first = k.config.values is_first_load == 1 in
    let values = if first then put_value is_first_load 0 k.config.values else k.config.values in
    read_settings env table (put_value Key.kip_crc32 (checksum_file k.file) values)
      (refusal (word Field.cust_rev table) (word Field.kip_version table))
      (record (if first then note installed k else k) { cust_rev = u8 (word Field.cust_rev table) })

abbrev pub get_with : {F : Type 0} → Env F → Option (List ℕ) → Kip F → Kip F
get_with env none k = note read_failed k
get_with env (some table) k =
    if checksum_file k.file /= k.config.values Key.kip_crc32 && k.config.values is_first_load == 0
    then note kip_updated (set_kip_data env (migrate_kip_data env (word Field.kip_version table) k))
    else read_table env table k

abbrev pub get_opened : {F : Type 0} → Env F → Option (List ℕ) → Kip F → Kip F
get_opened env none k = note opening_failed (record k { available = false })
get_opened env (some file) k =
    get_with env (cust_read_table (some file)) (record k { available = true })

-- `GetKipData`.
unfoldable pub get_kip_data : {F : Type 0} → Env F → Kip F → Kip F
get_kip_data env k = get_opened env k.file k

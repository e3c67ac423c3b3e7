-- ===== src/Kip/Data/Stored.antt =====
-- What `SetKipData` leaves in the file hoc.kip, and in the settings.
use rcu.Base.{
  ℕ, ◌≡◌, ◌≢◌, refl, ap, ◌∙◌, Bool, true, false, Option, none, some, List, if◌then◌else◌, length,
  u32,
}
use rcu.Config.Values.{valid_config_value}
use rcu.Config.Store.{Config, Line, Section}
use rcu.Config.Write.{commit, set_config_values}
use rcu.Checksum.{checksum_file}
use rcu.Kip.{word, cust_read_table, cust_write_table}
use rcu.Kip.Key
use rcu.Kip.Field
use rcu.Kip.Copied.{written}
use rcu.Kip.Table.{cust_read_table-write, cust_read_table-some}
use rcu.Kip.Data.{
  Kip, Env, set_with, set_opened, refusal, put_fields, stored, save_checksum, configured,
  write_settings, set_kip_data,
}
use rcu.Kip.Data.Fields.{Copies, length-put_fields, written_field, is_magic-written}

module _ {F : Type 0} where
  configured-file : (r : Bool × (F × Config)) (k : Kip F) → (configured r k).file ≡ k.file
  configured-file (true, r) k = refl
  configured-file (false, r) k = refl

  save_checksum-file : (env : Env F) (k : Kip F) → (save_checksum env k).file ≡ k.file
  unfolding save_checksum
  save_checksum-file env k = configured-file _ k

  -- The way of `SetKipData` to its end.
  set_kip_data-written :
      (env : Env F) (k : Kip F) (file table new : List ℕ)
      → k.file ≡ some file
      → cust_read_table (some file) ≡ some table
      → refusal (word Field.cust_rev table) (word Field.kip_version table) ≡ none
      → env.can_write ≡ true
      → cust_write_table (put_fields written k.config.values table) (some file) ≡ some new
      → set_kip_data env k ≡ save_checksum env (record k { available = true; file = some new })
  unfolding set_kip_data write_settings
  set_kip_data-written env k file table new has_file has_table agrees writes done =
      ap (λ o. set_opened env o k) has_file
      ∙ ap (λ o. set_with env o (record k { available = true })) has_table
      ∙ ap (λ o. write_settings env table o (record k { available = true })) agrees
      ∙ ap (λ o. save_checksum env (stored o (record k { available = true })))
          (ap
              (λ b.
                if b
                then cust_write_table (put_fields written k.config.values table) k.file
                else none)
              writes
            ∙ ap (cust_write_table (put_fields written k.config.values table)) has_file
            ∙ done)

  -- When the kip has the versions of the service and can be written, `SetKipData` leaves a file of the
  -- same length, in which a table is found whose fields are the settings, reduced to 32 bits.
  pub set_kip_data-stored :
      (env : Env F) (k : Kip F) (file table : List ℕ) (w key : ℕ)
      → k.file ≡ some file
      → cust_read_table (some file) ≡ some table
      → refusal (word Field.cust_rev table) (word Field.kip_version table) ≡ none
      → env.can_write ≡ true
      → Copies w key written
      → (new t : List ℕ) × ((set_kip_data env k).file ≡ some new)
        × (length new ≡ length file)
        × (cust_read_table (some new) ≡ some t)
        × (word w t ≡ u32 (k.config.values key))
  set_kip_data-stored env k file table w key has_file has_table agrees writes m =
      let (fits, magic, writable) = cust_read_table-some file table has_table in
      let (new, done) = writable (put_fields written k.config.values table) in
      let (again, long) =
        cust_read_table-write (put_fields written k.config.values table) file new
          (length-put_fields written k.config.values table ∙ fits)
          (is_magic-written k.config.values table ∙ magic) done in
      (
        new,
        put_fields written k.config.values table,
        ap (λ (x : Kip F). x.file)
              (set_kip_data-written env k file table new has_file has_table agrees writes done)
            ∙ save_checksum-file env (record k { available = true; file = some new }),
        long,
        again,
        written_field w key k.config.values table fits m,
      )

  configured-commit :
      (o : Option F) (file : F) (c d : Config) (k : Kip F)
      → o ≢ none
      → (configured (commit o file c d) k).config ≡ d
  configured-commit none file c d k h = absurd (h refl)
  configured-commit (some new) file c d k h = refl

  save_checksum-checksum :
      (env : Env F) (k : Kip F)
      → ((s : Section) (ls : List Line) (f : F) → env.ini.put_section s ls f ≢ none)
      → (save_checksum env k).config.values Key.kip_crc32 ≡ checksum_file k.file
  unfolding save_checksum set_config_values valid_config_value
  save_checksum-checksum env k puts =
      ap (λ (c : Config). c.values Key.kip_crc32) (configured-commit _ _ _ _ k (puts _ _ _))

  -- When the kip has the versions of the service and can be written, and config.ini can be written
  -- too, the settings hold after `SetKipData` the checksum of the file hoc.kip that it leaves.
  pub set_kip_data-checksum :
      (env : Env F) (k : Kip F) (file table : List ℕ)
      → k.file ≡ some file
      → cust_read_table (some file) ≡ some table
      → refusal (word Field.cust_rev table) (word Field.kip_version table) ≡ none
      → env.can_write ≡ true
      → ((s : Section) (ls : List Line) (f : F) → env.ini.put_section s ls f ≢ none)
      → (set_kip_data env k).config.values Key.kip_crc32 ≡ checksum_file (set_kip_data env k).file
  set_kip_data-checksum env k file table has_file has_table agrees writes puts =
      let (fits, magic, writable) = cust_read_table-some file table has_table in
      let (new, done) = writable (put_fields written k.config.values table) in
      rw
        (
          set_kip_data-written env k file table new has_file has_table agrees writes done,
          save_checksum-file env (record k { available = true; file = some new }),
        )
        (save_checksum-checksum env (record k { available = true; file = some new }) puts)

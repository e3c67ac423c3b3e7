-- ===== src/Kip/Data/Refused.antt =====
-- When `SetKipData` changes anything.
use rcu.Base.{
  ℕ, ◌≤◌, ◌<◌, ◌≡◌, ◌⊎◌, inl, inr, refl, subst, ◌||◌, Option, none, some, List, ◌∷◌, arith, ltb,
  Option-cases, if_then_else_ind,
}
use rcu.Kip.{word, cust_read_table}
use rcu.Kip.Field
use rcu.Kip.Data.{
  Kip, Env, cust_rev, kip_version, refusal, Note, opening_failed, read_failed, outdated_kip,
  outdated_sysmodule, set_opened, write_settings, set_kip_data,
}

-- Why the kip is refused: it is not there; no table can be read from it; its revision or version is older
-- than the service's; neither is older, and one of them is newer.
pub data Refusal : Option (List ℕ) → Note → Type 0 where
  missing : Refusal none opening_failed
  unreadable :
      {file : List ℕ} → cust_read_table (some file) ≡ none → Refusal (some file) read_failed
  old_kip :
      {file table : List ℕ}
      → cust_read_table (some file) ≡ some table
      → (word Field.cust_rev table < 4) ⊎ (word Field.kip_version table < 240)
      → Refusal (some file) outdated_kip
  old_sysmodule :
      {file table : List ℕ}
      → cust_read_table (some file) ≡ some table
      → 4 ≤ word Field.cust_rev table
      → 240 ≤ word Field.kip_version table
      → (4 < word Field.cust_rev table) ⊎ (240 < word Field.kip_version table)
      → Refusal (some file) outdated_sysmodule

-- Nothing but one notification, which says why the kip `o` is refused, and the note whether it is there.
abbrev pub OnlyNotes : {F : Type 0} → Option (List ℕ) → Kip F → Kip F → Type 0
OnlyNotes o k after =
    (after.file ≡ k.file)
    × (after.config ≡ k.config)
    × (after.ini_file ≡ k.ini_file)
    × (n : Note) × (after.notes ≡ n ∷ k.notes)
    × Refusal o n

-- The test of the versions, by its result.
abbrev Judged : ℕ → ℕ → Option Note → Type 0
Judged rev version none = (rev ≡ cust_rev) × (version ≡ kip_version)
Judged rev version (some outdated_kip) = (rev < 4) ⊎ (version < 240)
Judged rev version (some outdated_sysmodule) =
    (4 ≤ rev) × ((240 ≤ version) × ((4 < rev) ⊎ (240 < version)))
Judged rev version (some _) = ⊥

refusal-Judged : (rev version : ℕ) → Judged rev version (refusal rev version)
unfolding refusal
refusal-Judged rev version =
    if_then_else_ind (Judged rev version) (ltb rev cust_rev || ltb version kip_version) _ _
      (λ old. ground (arith, old))
      (λ same.
        if_then_else_ind (Judged rev version) (ltb cust_rev rev || ltb kip_version version) _ _
          (λ new. ground (arith, same, new)) (λ even. ground (arith, same, even)))

judged :
    (file table : List ℕ) (n : Note)
    → cust_read_table (some file) ≡ some table
    → Judged (word Field.cust_rev table) (word Field.kip_version table) (some n)
    → Refusal (some file) n
judged file table outdated_kip found h = old_kip found h
judged file table outdated_sysmodule found (a, (b, c)) = old_sysmodule found a b c
judged file table _ found h = absurd h

-- The kip is there, a table can be read from it, and both its versions are those of the service.
abbrev pub Agrees : Option (List ℕ) → Type 0
Agrees o =
    (file table : List ℕ) × (o ≡ some file)
    × (cust_read_table (some file) ≡ some table)
    × (word Field.cust_rev table ≡ cust_rev)
    × (word Field.kip_version table ≡ kip_version)

module _ {F : Type 0} (env : Env F) where
  set_opened-refused :
      (o : Option (List ℕ)) (k : Kip F) → k.file ≡ o → OnlyNotes o k (set_opened env o k) ⊎ Agrees o
  unfolding write_settings
  set_opened-refused none k e = inl (refl, refl, refl, opening_failed, refl, missing)
  set_opened-refused (some file) k e = elim (Option-cases (cust_read_table (some file))) [
    | inl unread ↦ inl (rw unread (refl, refl, refl, read_failed, refl, unreadable unread))
    | inr (table, found) ↦
        let rev = word Field.cust_rev table in
        let version = word Field.kip_version table in
        elim (Option-cases (refusal rev version)) [
          | inl fine ↦
              let same = subst (Judged rev version) fine (refusal-Judged rev version) in
              inr (file, table, refl, found, same.0, same.1)
          | inr (n, bad) ↦
              let why =
                judged file table n found
                  (subst (Judged rev version) bad (refusal-Judged rev version)) in
              inl (rw (found, bad) (refl, refl, refl, n, refl, why))
        ]
  ]

  -- `SetKipData` leaves hoc.kip, the settings and config.ini as they are and writes one notification,
  -- which says why (the kip is missing, or unreadable; the kip is outdated; the service is), unless the
  -- kip is there, a table can be read from it, and both its versions are those of the service.
  pub set_kip_data-refused : (k : Kip F) → OnlyNotes k.file k (set_kip_data env k) ⊎ Agrees k.file
  unfolding set_kip_data
  set_kip_data-refused k = set_opened-refused k.file k refl

-- ===== src/Node/Keys.antt =====
-- The master key's functions leave what a node keeps on its disk (edb/core/key.go).
use edgelessdb.Prelude.{◌≡◌, ap, arith, refl, Bool, Option, none, some, Bytes}
use edgelessdb.World.{
  Config, Disk, Host, M, Result, val, exc, State, modify, after, ◌>>=◌, ◌>>◌, attempt, mkdir_all,
  write_file, read_file, now, ignore, pure,
}
use edgelessdb.World.Invariant.{
  Holds, bind-Holds, same-Holds, attempt-Holds, ignore-Holds, pure-Holds,
}
use edgelessdb.Db.Mariadb.Config.{Mariadb}
use edgelessdb.Core.States.{cfg, advance_state}
use edgelessdb.Core.Key.{
  key_path, persistence_path, backup_path, load_master_key_from_env, load_master_key_from_disk,
  load_master_key, store_master_key_to_env, backup_key, store_master_key, new_master_key,
  keep_master_key, set_master_key, generate_if_missing, settle, must_init_master_key, or_from_disk,
  sealed,
}
use edgelessdb.Node.Intact.{IsOwn, IsDurable, IsIntact, persistence, key_file, backup}
use edgelessdb.Node.Files.{
  is_marble-Kept, Kept, kept, write_file-Kept, mkdir_all-Kept, modify-Kept, read_file-Kept,
  now-Kept,
}

module _ {A : Type 0} (h : Host) (row : Disk → Option A) (internal_path : Bytes) (config : Config)
    (laws : IsDurable h row internal_path (IsOwn internal_path config)) (r : A) where
  -- What follows the look at the configuration is asked for the node's own.
  cfg-Kept :
      {A : Type 0} (f : Config → M Mariadb A)
      → Kept h row internal_path config laws r (f config)
      → Kept h row internal_path config laws r (cfg >>= f)
  cfg-Kept f k = record {
    kept = λ w p.
        let own : after (f w.core.cfg w) ≡ after (f config w) =
          ap (λ c. after (f c w)) p.configured in
        rw own (k.kept w p);
  }

  state_only-Kept :
      (s : State)
      → Kept h row internal_path config laws r
          (modify (λ w. record w { core = record (w.core) { state = s } }))
  state_only-Kept s =
      modify-Kept h row internal_path config laws r
        (λ w. record w { core = record (w.core) { state = s } }) (λ w. (refl, refl, refl, refl))

  pub advance_state-Kept : (s : State) → Kept h row internal_path config laws r (advance_state s)
  unfolding advance_state
  advance_state-Kept s = search (kept, state_only-Kept) depth 9

  load_master_key_from_env-Kept : Kept h row internal_path config laws r load_master_key_from_env
  unfolding load_master_key_from_env
  load_master_key_from_env-Kept = same-Holds _ (λ w. ground arith)

  store_master_key_to_env-Kept :
      (key : Bytes) → Kept h row internal_path config laws r (store_master_key_to_env h key)
  unfolding store_master_key_to_env
  store_master_key_to_env-Kept key = search kept depth 9

  load_master_key_from_disk-Kept :
      Kept h row internal_path config laws r (load_master_key_from_disk h)
  unfolding load_master_key_from_disk
  load_master_key_from_disk-Kept =
      search (kept, is_marble-Kept, cfg-Kept, store_master_key_to_env-Kept) depth 16

  or_from_disk-Kept : (o : Option Bytes) → Kept h row internal_path config laws r (or_from_disk h o)
  or_from_disk-Kept none = record { kept = load_master_key_from_disk-Kept.kept }
  or_from_disk-Kept (some key) = record { kept = λ w p. p }

  load_master_key-Kept : Kept h row internal_path config laws r (load_master_key h)
  unfolding load_master_key
  load_master_key-Kept = search (kept, load_master_key_from_env-Kept, or_from_disk-Kept) depth 9

  backup_key-Kept : Kept h row internal_path config laws r (backup_key h (key_path config))
  unfolding backup_key
  backup_key-Kept =
      bind-Holds (attempt (read_file h (key_path config))) _
        (attempt-Holds _ (read_file-Kept h row internal_path config laws r _)) of_read
    where
      of_read :
          (o : Result Bytes)
          → Holds (IsIntact row internal_path config r) (elim o as (λ _. M Mariadb (Unit {0})) [
            | exc _ ↦ pure tt
            | val old ↦ do t ← now h; ignore (write_file h (backup_path (key_path config) t) old)
          ])
      of_read (exc e) = pure-Holds tt
      of_read (val old) = bind-Holds (now h) _ (now-Kept h row internal_path config laws r) λ t.
          ignore-Holds _ (
            write_file-Kept h row internal_path config laws r (backup_path (key_path config) t) old
              (backup t))

  store_master_key-Kept :
      (key : Bytes) → Kept h row internal_path config laws r (store_master_key h key)
  unfolding store_master_key
  store_master_key-Kept key =
      bind-Holds (store_master_key_to_env h key) _ (store_master_key_to_env-Kept key) λ _.
        bind-Holds (sealed h key) _ (search kept depth 9) λ contents.
          let write : Config → M Mariadb (Unit {0}) = λ c.
            mkdir_all h (persistence_path c)
            >> (backup_key h (key_path c) >> write_file h (key_path c) contents) in
          cfg-Kept write (
            bind-Holds (mkdir_all h (persistence_path config)) _
              (mkdir_all-Kept h row internal_path config laws r _ persistence)
              λ _.
                bind-Holds (backup_key h (key_path config)) _ backup_key-Kept
                  λ _. write_file-Kept h row internal_path config laws r _ contents key_file)

  new_master_key-Kept : Kept h row internal_path config laws r (new_master_key h)
  unfolding new_master_key
  new_master_key-Kept = search (kept, store_master_key-Kept) depth 9

  keep_master_key-Kept :
      (key : Bytes) → Kept h row internal_path config laws r (modify (keep_master_key h key))
  keep_master_key-Kept key =
      modify-Kept h row internal_path config laws r (keep_master_key h key)
        (λ w. (refl, refl, refl, refl))

  pub set_master_key-Kept :
      (key : Bytes) → Kept h row internal_path config laws r (set_master_key h key)
  unfolding set_master_key
  set_master_key-Kept key =
      search (kept, is_marble-Kept, keep_master_key-Kept, store_master_key-Kept) depth 9

  generate_if_missing-Kept :
      (b : Bool) (o : Result Bytes)
      → Kept h row internal_path config laws r (generate_if_missing h b o)
  unfolding generate_if_missing
  generate_if_missing-Kept b (val key) = search kept
  generate_if_missing-Kept b (exc e) = search (kept, new_master_key-Kept) depth 9

  settle-Kept : (o : Result Bytes) → Kept h row internal_path config laws r (settle h o)
  unfolding settle
  settle-Kept (val key) = search (kept, advance_state-Kept, keep_master_key-Kept) depth 9
  settle-Kept (exc e) = search (kept, advance_state-Kept) depth 9

  pub must_init_master_key-Kept : Kept h row internal_path config laws r (must_init_master_key h)
  unfolding must_init_master_key
  must_init_master_key-Kept =
      search (kept, cfg-Kept, load_master_key-Kept, generate_if_missing-Kept, settle-Kept) depth 14

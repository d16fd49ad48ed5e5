-- ===== src/Node/Files.antt =====
-- The system calls of a node leave the row on its disk (edb/core, edb/db).
use edgelessdb.Prelude.{◌≡◌, ◌∙◌, ◌⊎◌, inl, inr, refl, ap, arith, ℕ, Option, String, Bytes}
use edgelessdb.World.{
  World, Config, Disk, Entry, dir, file, put, erase, set_disk, Host, M, after, setenv, read_file,
  write_file, mkdir_all, stat, exists, remove, tick, getenv, print, lookup_env, now, rand_read,
  with_env, modify, fault,
}
use edgelessdb.World.Invariant.{Holds, holds, same-Holds, bind-Holds, fault-Holds}
use edgelessdb.Db.Mariadb.Config.{Mariadb}
use edgelessdb.Core.States.{is_marble}
use edgelessdb.Node.Intact.{IsDurable, IsIntact}

module _ {A : Type 0} {own : Bytes → Type 0} (h : Host) (row : Disk → Option A)
    (internal_path : Bytes) (config : Config) (laws : IsDurable h row internal_path own)
    (r : A) where
  abbrev pub Kept : {A : Type 0} → M Mariadb A → Type 0
  Kept m = Holds (IsIntact row internal_path config r) m

  -- Only the disk has changed, and not what is kept.
  pub same_row :
      (disk : Disk) (w : World Mariadb)
      → row disk ≡ row w.os.disk
      → IsIntact row internal_path config r w
      → IsIntact row internal_path config r (set_disk disk w)
  same_row disk w same p = record {
    stored = same ∙ p.stored;
    configured = p.configured;
    inside = p.inside;
    outside = p.outside;
  }

  -- A call that leaves everything, or writes one path.
  written_or_same :
      (p : Bytes) (e : Entry) (w v : World Mariadb)
      → own p
      → ((v ≡ w) ⊎ (v ≡ set_disk (put p e w.os.disk) w))
      → IsIntact row internal_path config r w
      → IsIntact row internal_path config r v
  written_or_same p e w v own (inl same) k = rw same k
  written_or_same p e w v own (inr put_there) k =
      rw put_there (same_row (put p e w.os.disk) w (laws.written p e w.os.disk own) k)

  after-write_file :
      (p b : Bytes) (w : World Mariadb)
      → (after (write_file h p b w) ≡ w)
        ⊎ (after (write_file h p b w) ≡ set_disk (put p (file b) w.os.disk) w)
  unfolding write_file
  after-write_file p b w = ground arith

  after-mkdir_all :
      (p : Bytes) (w : World Mariadb)
      → (after (mkdir_all h p w) ≡ w) ⊎ (after (mkdir_all h p w) ≡ set_disk (put p dir w.os.disk) w)
  unfolding mkdir_all
  after-mkdir_all p w = ground arith

  after-remove :
      (p : Bytes) (w : World Mariadb)
      → (after (remove h p w) ≡ w) ⊎ (after (remove h p w) ≡ set_disk (erase p w.os.disk) w)
  unfolding remove
  after-remove p w = ground arith

  pub write_file-Kept : (p b : Bytes) → own p → Kept (write_file h p b)
  write_file-Kept p b own = record {
    kept = λ w k. written_or_same p (file b) w _ own (after-write_file p b w) k;
  }

  pub mkdir_all-Kept : (p : Bytes) → own p → Kept (mkdir_all h p)
  mkdir_all-Kept p own = record {
    kept = λ w k. written_or_same p dir w _ own (after-mkdir_all p w) k;
  }

  pub remove-Kept : (p : Bytes) → own p → Kept (remove h p)
  remove-Kept p own = record {
    kept = λ w k. elim (after-remove p w) [
      | inl same ↦ rw same k
      | inr gone ↦ rw gone (same_row (erase p w.os.disk) w (laws.removed p w.os.disk own) k)
    ];
  }

  pub read_file-Kept : (p : Bytes) → Kept (read_file h p)
  unfolding read_file
  read_file-Kept p = search holds depth 9

  pub stat-Kept : (p : Bytes) → Kept (stat h p)
  unfolding stat
  stat-Kept p = search holds depth 9

  pub exists-Kept : (p : Bytes) → Kept (exists h p)
  unfolding exists stat
  exists-Kept p = search holds depth 9

  -- What changes neither the disk nor the configuration.
  pub modify-Kept :
      (f : World Mariadb → World Mariadb)
      → ((w : World Mariadb)
          → ((f w).os.disk ≡ w.os.disk)
            × ((f w).core.cfg ≡ w.core.cfg)
            × ((f w).db.internal_path ≡ w.db.internal_path)
            × ((f w).db.external_path ≡ w.db.external_path))
      → Kept (modify f)
  modify-Kept f same = record {
    kept = λ w p.
        let (disk, cfg, ip, ep) = same w in
        record {
          stored = ap row disk ∙ p.stored;
          configured = cfg ∙ p.configured;
          inside = ip ∙ p.inside;
          outside = ep ∙ p.outside;
        };
  }

  pub is_marble-Kept : Kept is_marble
  is_marble-Kept = record { kept = λ w p. p }

  pub tick-Kept : Kept tick
  tick-Kept = record {
    kept = λ w p. record {
      stored = p.stored;
      configured = p.configured;
      inside = p.inside;
      outside = p.outside;
    };
  }

  pub print-Kept : (line : Bytes) → Kept (print line)
  print-Kept line = modify-Kept _ (λ w. (refl, refl, refl, refl))

  pub getenv-Kept : (k : String) → Kept (getenv k)
  getenv-Kept k = record { kept = λ w p. p }

  pub lookup_env-Kept : (k : String) → Kept (lookup_env k)
  lookup_env-Kept k = record { kept = λ w p. p }

  pub setenv-Kept : (k : String) (v : Bytes) → Kept (setenv h k v)
  unfolding setenv
  setenv-Kept k v =
      bind-Holds (fault (h.setenv_fault k)) _ (fault-Holds _)
        λ _. modify-Kept (with_env k v) (λ w. (refl, refl, refl, refl))

  pub now-Kept : Kept (now h)
  unfolding now
  now-Kept = search (holds, tick-Kept)

  pub rand_read-Kept : (size : ℕ) → Kept (rand_read h size)
  unfolding rand_read
  rand_read-Kept size = search (holds, tick-Kept)

-- The rules for `search`.
pub ruleset kept = (
  holds, read_file-Kept, stat-Kept, exists-Kept, tick-Kept, print-Kept, getenv-Kept,
  lookup_env-Kept, setenv-Kept, now-Kept, rand_read-Kept,
)

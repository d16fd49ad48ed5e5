-- ===== src/Db/Mariadb/TakeOver.antt =====
-- `Start` (edb/db/mariadb.go), behind the start of mariadbd: what it reads from the running database.
use edgelessdb.Prelude.{
  ◌≡◌, ◌∙◌, ap, sym, arith, Bool, false, Option, none, some, [], Bytes, not, ◌&&◌,
}
use edgelessdb.World.{
  World, Host, M, Row, Manifest, PrivateKey, ok, on_ok, from_result, fail_if, setenv, fault, ◌>>=◌,
  val, must, modify, with_env, Error, ◌>>◌, debug_not_allowed,
}
use edgelessdb.Db.Mariadb.Config.{Mariadb, write_certificates}
use edgelessdb.Db.Mariadb.Startup.{
  internal_addr_var, get_config_from_sql, or_fatal, adopt, take_over,
}
use edgelessdb.Db.Mariadb.Fields.{write_certificates_ok}

module _ (h : Host) where
  pub must-eq_ok :
      {A : Type 0} (m : M Mariadb A) (a : A) (w v : World Mariadb)
      → must m w ≡ ok a v
      → m w ≡ ok a v
  must-eq_ok m a w v e = ground arith

  or_fatal-eq_ok :
      {A : Type 0} (m : M Mariadb A) (a : A) (w v : World Mariadb)
      → or_fatal h m w ≡ ok a v
      → m w ≡ ok a v
  or_fatal-eq_ok m a w v e = ground arith

  get_config_from_sql-eq_ok :
      (address : Bytes) (row : Row) (key : PrivateKey) (w v : World Mariadb)
      → get_config_from_sql h address w ≡ ok (row, key) v
      → (v ≡ w) × (h.query_config address w.os.disk ≡ val row) × (h.parse_pkcs8 row.key ≡ val key)
  unfolding get_config_from_sql
  get_config_from_sql-eq_ok address row key w v e = (ground arith, ground arith, ground arith)

  setenv_cleared :
      (w w' : World Mariadb)
      → (must (setenv h internal_addr_var []) >>= λ _. must (fault h.dial_fault)) w ≡ ok tt w'
      → (w'.db ≡ w.db) × (w'.os.env internal_addr_var ≡ some [])
  unfolding setenv
  setenv_cleared w w' e = on_ok (must (setenv h internal_addr_var [])) _ w e λ _ v e1 r1.
      let p : (v.db ≡ w.db) × (v.os.env internal_addr_var ≡ some []) =
        (ground arith, was_set w v e1) in
      let s : w' ≡ v = ground arith in
      (ap (λ u. u.db) s ∙ p.0, ap (λ (u : World Mariadb). u.os.env internal_addr_var) s ∙ p.1)
    where
      is_set :
          (f : Option Error) (w v : World Mariadb)
          → must (fault f >> modify (with_env internal_addr_var [])) w ≡ ok tt v
          → v ≡ with_env internal_addr_var [] w
      is_set none w v e = ground arith
      is_set (some x) w v e = ground arith

      was_set :
          (w v : World Mariadb)
          → must (setenv h internal_addr_var []) w ≡ ok tt v
          → v.os.env internal_addr_var ≡ some []
      was_set w v e =
          ap (λ (u : World Mariadb). u.os.env internal_addr_var)
            (is_set (h.setenv_fault internal_addr_var) w v e)

  not_debug :
      (a b : Bool) (w v : World Mariadb)
      → must (fail_if (a && not b) debug_not_allowed) w ≡ ok tt v
      → ((a && not b) ≡ false) × (v ≡ w)
  not_debug a b w v e = (ground arith, ground arith)

  -- What a start takes over from the database that answers at the address.
  pub take_over-eq_ok :
      (address : Bytes) (w w' : World Mariadb)
      → take_over h address w ≡ ok tt w'
      → (row : Row) × (key : PrivateKey) × (man : Manifest) × (h.query_config address w.os.disk
          ≡ val row)
        × (h.parse_pkcs8 row.key ≡ val key)
        × (h.json_manifest row.manifest ≡ val man)
        × ((w.db.debug && not man.debug) ≡ false)
        × (w'.db ≡ (adopt h row key man w).db)
        × (w'.os.env internal_addr_var ≡ some [])
  unfolding take_over
  take_over-eq_ok address w w' e =
      on_ok (or_fatal h (get_config_from_sql h address)) _ w e λ p w1 e1 r1.
        on_ok (must (from_result (h.json_manifest p.0.manifest))) _ w1 r1 λ man w2 e2 r2.
          on_ok (must (fail_if (w2.db.debug && not man.debug) debug_not_allowed)) _ w2 r2
            λ _ w3 e3 r3. on_ok (modify (adopt h p.0 p.1 man)) _ w3 r3 λ _ w4 e4 r4.
              on_ok (must (write_certificates h)) _ w4 r4 λ _ w5 e5 r5.
                let (s1, queried, parsed) =
                  get_config_from_sql-eq_ok address p.0 p.1 w w1
                    (or_fatal-eq_ok (get_config_from_sql h address) p w w1 e1) in
                let s2 : w2 ≡ w1 = ground arith in
                let (dbg, s3) = not_debug w2.db.debug man.debug w2 w3 e3 in
                let s : w3 ≡ w = s3 ∙ s2 ∙ s1 in
                let s4 : w4 ≡ adopt h p.0 p.1 man w3 = cc in
                let d5 =
                  write_certificates_ok h w4 w5 (must-eq_ok (write_certificates h) tt w4 w5 e5) in
                let (d6, cleared) = setenv_cleared w5 w' r5 in
                (
                  p.0,
                  p.1,
                  man,
                  queried,
                  parsed,
                  ground arith,
                  ap (λ (v : World Mariadb). v.db.debug && not man.debug) (sym (s2 ∙ s1)) ∙ dbg,
                  d6 ∙ d5 ∙ ap (λ v. v.db) s4 ∙ ap (λ v. (adopt h p.0 p.1 man v).db) s,
                  cleared,
                )

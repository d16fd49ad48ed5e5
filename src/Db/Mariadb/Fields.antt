-- ===== src/Db/Mariadb/Fields.antt =====
-- edb/db/mariadb.go: the parts of `Initialize` and `Start` that write files leave the fields of the
-- object alone.
use edgelessdb.Prelude.{◌≡◌, ◌∙◌, ap, arith, List, [], ◌∷◌, Bytes}
use edgelessdb.World.{
  file, put, set_disk, World, Host, PrivateKey, ok, on_ok, from_result, write_file,
}
use edgelessdb.Db.Util.{to_pem, create_certificate, generate_serial}
use edgelessdb.Db.Mariadb.Config.{
  internal_file, Mariadb, write_internal, configure_bootstrap, configure_start, client_ca,
  write_certificates, filename_cnf, filename_init, filename_ca, filename_cert, filename_key,
  bootstrap_cnf, init_script, start_cnf,
}

module _ (h : Host) where
  pub write_internal-eq_ok :
      (name b : Bytes) (w w' : World Mariadb)
      → write_internal h name b w ≡ ok tt w'
      → w' ≡ set_disk (put (internal_file w.db name) (file b) w.os.disk) w
  unfolding write_internal write_file
  write_internal-eq_ok name b w w' e = ground arith

  pub write_internal_ok :
      (name contents : Bytes) (w w' : World Mariadb)
      → write_internal h name contents w ≡ ok tt w'
      → w'.db ≡ w.db
  unfolding write_internal write_file
  write_internal_ok name contents w w' e = ground arith

  pub configure_start_ok : (w w' : World Mariadb) → configure_start h w ≡ ok tt w' → w'.db ≡ w.db
  unfolding configure_start
  configure_start_ok w w' e = write_internal_ok filename_cnf (start_cnf h w.db) w w' e

  pub configure_bootstrap_ok :
      (b : Bytes) (sql : List Bytes) (m : Bytes) (w w' : World Mariadb)
      → configure_bootstrap h b sql m w ≡ ok tt w'
      → w'.db ≡ w.db
  unfolding configure_bootstrap
  configure_bootstrap_ok b sql m w w' e =
      on_ok (from_result (h.marshal_pkcs8 w.db.key)) _ w e λ key w1 e1 r1.
        on_ok (write_internal h filename_cnf (bootstrap_cnf w.db)) _ w1 r1 λ _ w2 e2 r2.
          let s1 : w1 ≡ w = ground arith in
          write_internal_ok filename_init (init_script b sql w.db.cert key m) w2 w' r2
          ∙ write_internal_ok filename_cnf (bootstrap_cnf w.db) w1 w2 e2
          ∙ ap (λ v. v.db) s1

  to_pem_ok :
      (cert : Bytes) (key : PrivateKey) (w w' : World Mariadb) (p : Bytes × Bytes)
      → to_pem h cert key w ≡ ok p w'
      → w'.db ≡ w.db
  unfolding to_pem
  to_pem_ok cert key w w' p e = ground arith

  client_ca_ok :
      (ca : Bytes) (w w' : World Mariadb) (c : Bytes) → client_ca h ca w ≡ ok c w' → w'.db ≡ w.db
  unfolding client_ca create_certificate generate_serial
  client_ca_ok [] w w' c e = ground arith
  client_ca_ok (x ∷ ca) w w' c e = ground arith

  pub write_certificates_ok :
      (w w' : World Mariadb) → write_certificates h w ≡ ok tt w' → w'.db ≡ w.db
  unfolding write_certificates
  write_certificates_ok w w' e = on_ok (to_pem h w.db.cert w.db.key) _ w e λ p w1 e1 r1.
      on_ok (client_ca h w.db.ca) _ w1 r1 λ ca w2 e2 r2.
        on_ok (write_internal h filename_ca ca) _ w2 r2 λ _ w3 e3 r3.
          on_ok (write_internal h filename_cert p.0) _ w3 r3 λ _ w4 e4 r4.
            write_internal_ok filename_key p.1 w4 w' r4
            ∙ write_internal_ok filename_cert p.0 w3 w4 e4
            ∙ write_internal_ok filename_ca ca w2 w3 e3
            ∙ client_ca_ok w.db.ca w1 w2 ca e2
            ∙ to_pem_ok w.db.cert w.db.key w w1 p e1

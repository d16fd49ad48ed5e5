-- ===== src/Db/Marblerun/Checks.antt =====
-- `setupCertificateFromMarblerun` (edb/db/marblerun.go): what an accepted certificate and key are.
use edgelessdb.Prelude.{not, ◌||◌, ◌≤◌, ◌≡◌, ◌≢◌, true, Bytes, [], some, arith, is_empty}
use edgelessdb.World.{
  World, Outcome, Host, PrivateKey, rsa, ecdsa, other_key, ok, val, or_empty, on_ok, fail_if,
  from_option, from_result, getenv, bad_root_cert_pem, bad_root_key_pem, root_cert_not_ca,
  no_root_secret,
}
use edgelessdb.Db.Marblerun.{
  root_certificate_var, root_key_var, check_key_size, setup_certificate_from_marblerun,
}

-- A key that is long enough for its kind.
abbrev pub IsLongEnough : PrivateKey → Type 0
IsLongEnough (rsa bits _) = 2048 ≤ bits
IsLongEnough (ecdsa bits _) = 256 ≤ bits
IsLongEnough (other_key _) = Unit

module _ {D : Type 0} where
  check_key_size-eq_ok :
      (key : PrivateKey) (w v : World D)
      → check_key_size key w ≡ ok tt v
      → IsLongEnough key × (v ≡ w)
  check_key_size-eq_ok (rsa bits b) w v e = ground arith
  check_key_size-eq_ok (ecdsa bits b) w v e = ground arith
  check_key_size-eq_ok (other_key b) w v e = ground arith

-- A certificate and a key are accepted from MarbleRun only if both variables are set to a value, the first
-- holds the certificate in PEM, which parses as one of a CA, and the second holds a private key,
-- which parses and is long enough. Nothing is changed.
pub setup_certificate_from_marblerun-eq_ok :
    (h : Host) {D : Type 0} (cert : Bytes) (key : PrivateKey) (w w' : World D)
    → setup_certificate_from_marblerun h w ≡ ok (cert, key) w'
    → (or_empty (w.os.env root_certificate_var) ≢ [])
      × (or_empty (w.os.env root_key_var) ≢ [])
      × (h.pem_decode (or_empty (w.os.env root_certificate_var)) ≡ some cert)
      × (h.parse_certificate cert ≡ val true)
      × ((block : Bytes) × (h.pem_decode (or_empty (w.os.env root_key_var)) ≡ some block)
          × (h.parse_pkcs8 block ≡ val key))
      × IsLongEnough key
      × (w' ≡ w)
unfolding setup_certificate_from_marblerun
setup_certificate_from_marblerun-eq_ok h {D} cert key w w' e =
    on_ok (getenv root_certificate_var) _ w e λ cert_pem w1 e1 r1.
      on_ok (getenv root_key_var) _ w1 r1 λ key_pem w2 e2 r2.
        on_ok (fail_if (is_empty cert_pem || is_empty key_pem) no_root_secret) _ w2 r2 λ _ w3 e3 r3.
          on_ok (from_option bad_root_cert_pem (h.pem_decode cert_pem)) _ w3 r3 λ cert' w4 e4 r4.
            on_ok (from_result (h.parse_certificate cert')) _ w4 r4 λ is_ca w5 e5 r5.
              on_ok (fail_if (not is_ca) root_cert_not_ca) _ w5 r5 λ _ w6 e6 r6.
                on_ok (from_option bad_root_key_pem (h.pem_decode key_pem)) _ w6 r6
                  λ block w7 e7 r7.
                    on_ok (from_result (h.parse_pkcs8 block)) _ w7 r7 λ key' w8 e8 r8.
                      on_ok (check_key_size key') _ w8 r8 λ _ w9 e9 r9.
                        let c = check_key_size-eq_ok key' w8 w9 e9 in
                        let r : Path (Outcome D (Bytes × PrivateKey)) (ok (cert', key') w9)
                            (ok (cert, key) w') =
                          r9 in
                        let k : key' ≡ key = ground (arith, r) in
                        (
                          ground arith,
                          ground arith,
                          ground (arith, r),
                          ground (arith, r),
                          (block, ground arith, ground (arith, r)),
                          rw k at c.0,
                          ground (arith, r),
                        )

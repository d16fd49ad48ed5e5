-- ===== src/Db/Marblerun.antt =====
-- edb/db/marblerun.go: the root certificate and its key, which MarbleRun passes in the environment.
pub mod Checks
use edgelessdb.Prelude.{Bool, false, not, ◌||◌, String, Bytes, is_empty, ltb}
use edgelessdb.World.{
  Error, Host, PrivateKey, rsa, ecdsa, other_key, M, ok, err, ◌>>=◌, ◌>>◌, pure, from_result,
  from_option, fail_if, getenv, no_root_secret, bad_root_cert_pem, root_cert_not_ca,
  bad_root_key_pem, rsa_key_too_short, ecdsa_key_too_short,
}

-- `EnvRootCertificate` and `EnvRootKey`
abbrev pub root_certificate_var : String
root_certificate_var = "EDB_ROOT_CERT"

abbrev pub root_key_var : String
root_key_var = "EDB_ROOT_KEY"

module _ {D : Type 0} where
  -- An RSA key has 2048 bits at least and an ECDSA key 256; other keys are taken as they are.
  abbrev pub check_key_size : PrivateKey → M D (Unit {0})
  check_key_size (rsa bits _) = fail_if (ltb bits 2048) rsa_key_too_short
  check_key_size (ecdsa bits _) = fail_if (ltb bits 256) ecdsa_key_too_short
  check_key_size (other_key _) = pure tt

module _ (h : Host) {D : Type 0} where
  -- `setupCertificateFromMarblerun`
  unfoldable pub setup_certificate_from_marblerun : M D (Bytes × PrivateKey)
  setup_certificate_from_marblerun = do
    cert_pem ← getenv root_certificate_var
    key_pem ← getenv root_key_var
    fail_if (is_empty cert_pem || is_empty key_pem) no_root_secret
    cert ← from_option bad_root_cert_pem (h.pem_decode cert_pem)
    is_ca ← from_result (h.parse_certificate cert)
    fail_if (not is_ca) root_cert_not_ca
    block ← from_option bad_root_key_pem (h.pem_decode key_pem)
    key ← from_result (h.parse_pkcs8 block)
    check_key_size key
    pure (cert, key)

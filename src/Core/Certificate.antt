-- ===== src/Core/Certificate.antt =====
-- edb/core/core.go: the certificates that clients see, and the report that binds to them.
use edgelessdb.Prelude.{
  not, Bool, true, false, Option, none, some, String, List, [], ◌∷◌, ◌++◌, Bytes, text, is_empty,
  if◌then◌else◌,
}
use edgelessdb.World.{
  Result, Host, PrivateKey, hours, M, ◌>>=◌, ◌>>◌, pure, throw, must, branch, get, modify,
  from_result, from_option, fail_if, val, exc, getenv, tick, not_a_marble, no_root_ca, bad_root_ca,
  encode_certificate_failed,
}
use edgelessdb.Db.Interface.{Database}
use edgelessdb.Db.Util.{generate_serial}
use edgelessdb.Core.States.{cfg, is_marble}

-- `marble.MarbleEnvironmentRootCA` of the ego library
module _ (root_ca_var : String) (h : Host) {D : Type 0} where
  -- `getCertificateCA`
  unfoldable pub get_certificate_ca : M D Bytes
  get_certificate_ca = do
    marble ← is_marble
    fail_if (not marble) not_a_marble
    pem ← getenv root_ca_var
    fail_if (is_empty pem) no_root_ca
    from_option bad_root_ca (h.pem_decode pem)

-- A `tls.Config`: one chain of certificates, the key of its first, and whether the callback
-- `getConfigForClient` is set.
pub record TlsConfig : Type 0 where
  pub chain : List Bytes
  pub key : PrivateKey
  pub per_client : Bool

module _ (h : Host) {D : Type 0} where
  -- `pem.EncodeToMemory`, which gives nothing on failure
  abbrev pub encode_certificate : Bytes → M D Bytes
  encode_certificate cert =
      let pem = h.pem_encode "CERTIFICATE" cert in
      branch (is_empty pem) (throw encode_certificate_failed) (pure pem)

  -- `createCertificate`: a certificate for an hour, signed by the database's own.
  unfoldable pub create_certificate :
      Bytes → List Bytes → Bytes → PrivateKey → M D (Bytes × PrivateKey)
  unfolding generate_serial
  create_certificate hostname ips signer_cert signer_key = do
    number ← generate_serial h
    parsed ← from_result (h.parse_certificate signer_cert)
    j ← tick
    priv ← from_result (h.generate_key j)
    cert ← from_result (
        h.sign
          (record {
            serial = number;
            organization = text "EDB ephemeral";
            dns_name = hostname;
            ips = ips;
            lifetime = hours 1;
            is_ca = false;
          })
          signer_cert priv signer_key)
    pure (cert, priv)

abbrev pub localhost : Bytes
localhost = 127 ∷ 0 ∷ 0 ∷ 1 ∷ []

abbrev pub local_ips : Option Bytes → List Bytes
local_ips none = localhost ∷ []
local_ips (some ip) = localhost ∷ ip ∷ []

-- The report about a hash, or nothing where the attestation fails.
abbrev pub report_or_none : Result Bytes → Bytes
report_or_none (val r) = r
report_or_none (exc _) = []

module _ (root_ca_var : String) (h : Host) {D : Type 0} (db : Database D) where
  -- `GenerateReport`: the report is about the hash of the certificate that clients are to pin. A
  -- failure of the attestation leaves no report, and is no error.
  abbrev pub report_for : Bytes → M D (Unit {0})
  report_for cert =
      let report = report_or_none (h.remote_report (h.sha256 cert)) in
      modify (λ w. record w { core = record (w.core) { report = report } })

  abbrev pub own_certificate : M D Bytes
  own_certificate = do (cert, key) ← db.get_certificate; pure cert

  -- The certificate at the root of what clients see.
  unfoldable pub reported_certificate : M D Bytes
  unfolding get_certificate_ca
  reported_certificate = do
    marble ← is_marble
    branch marble (get_certificate_ca root_ca_var h) own_certificate

  unfoldable pub generate_report : M D (Unit {0})
  generate_report = do cert ← reported_certificate; report_for cert

  -- `getCertificateReportMarble`
  unfoldable pub get_certificate_report_marble : M D (Bytes × Bytes)
  unfolding get_certificate_ca
  get_certificate_report_marble = do
    cert ← own_certificate
    ca ← get_certificate_ca root_ca_var h
    pem ← encode_certificate h cert
    ca_pem ← encode_certificate h ca
    w ← get
    pure (pem ++ ca_pem, w.core.report)

  -- `GetCertificateReport`
  unfoldable pub get_certificate_report : M D (Bytes × Bytes)
  unfolding get_certificate_report_marble
  get_certificate_report = do
    marble ← is_marble
    branch marble get_certificate_report_marble do
      cert ← own_certificate
      pem ← encode_certificate h cert
      w ← get
      pure (pem, w.core.report)

  -- `getTLSConfigMarble`
  unfoldable pub get_tls_config_marble : M D TlsConfig
  unfolding get_certificate_ca
  get_tls_config_marble = do
    (cert, key) ← db.get_certificate
    ca ← must (get_certificate_ca root_ca_var h)
    pure (record { chain = cert ∷ ca ∷ []; key = key; per_client = true })

  -- `GetTLSConfig`
  unfoldable pub get_tls_config : M D TlsConfig
  unfolding get_tls_config_marble
  get_tls_config = do
    marble ← is_marble
    branch marble get_tls_config_marble do
      (cert, key) ← db.get_certificate
      pure (record { chain = cert ∷ []; key = key; per_client = true })

  -- `getConfigForClient`, for the server name that the client sent and the IP address that it
  -- reached, if the connection is a TCP one.
  unfoldable pub get_config_for_client : Bytes → Option Bytes → M D TlsConfig
  unfolding create_certificate
  get_config_for_client server_name local_ip = do
    (signer_cert, signer_key) ← db.get_certificate
    c ← cfg
    let hostname = if is_empty server_name then c.certificate_dns_name else server_name
    (cert, key) ← create_certificate h hostname (local_ips local_ip) signer_cert signer_key
    pure (record { chain = cert ∷ signer_cert ∷ []; key = key; per_client = false })

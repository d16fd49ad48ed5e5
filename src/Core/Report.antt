-- ===== src/Core/Report.antt =====
-- `GenerateReport` and `GetCertificateReport` (edb/core/core.go): what the quote is about.
use edgelessdb.Prelude.{
  ◌≡◌, ◌⊎◌, inl, inr, ◌∙◌, refl, ap, arith, Bool, true, false, some, Bytes, String,
}
use edgelessdb.World.{World, Host, PrivateKey, ok, on_ok, branch, or_empty}
use edgelessdb.Db.Interface.{Database}
use edgelessdb.Core.Certificate.{
  get_certificate_ca, reported_certificate, generate_report, own_certificate, report_or_none,
}

module _ (root_ca_var : String) (h : Host) {D : Type 0} (db : Database D) where
  -- A `GenerateReport` that returned no error has put into the field `report` the report about the
  -- SHA-256 hash of a certificate, or nothing where the attestation failed. On a Marble this is the
  -- root certificate from the environment, else the one that the database gave.
  pub generate_report-eq_ok :
      (w w' : World D)
      → generate_report root_ca_var h db w ≡ ok tt w'
      → (cert : Bytes) × (w'.core.report ≡ report_or_none (h.remote_report (h.sha256 cert)))
        × (((w.core.is_marble ≡ true)
              × (h.pem_decode (or_empty (w.os.env root_ca_var)) ≡ some cert))
            ⊎ ((w.core.is_marble ≡ false)
                × ((key : PrivateKey) × (v : World D) × (db.get_certificate w ≡ ok (cert, key) v))))
  unfolding generate_report reported_certificate get_certificate_ca
  generate_report-eq_ok w w' e = on_ok (reported_certificate root_ca_var h db) _ w e λ cert v e1 r1.
      let put : w' ≡ record v {
        core = record (v.core) { report = report_or_none (h.remote_report (h.sha256 cert)) };
      } =
        cc in
      (cert, ap (λ (u : World D). u.core.report) put, sources w.core.is_marble cert v e1)
    where
      from_env :
          (cert : Bytes) (v : World D)
          → get_certificate_ca root_ca_var h w ≡ ok cert v
          → h.pem_decode (or_empty (w.os.env root_ca_var)) ≡ some cert
      from_env cert v e = ground arith

      sources :
          (b : Bool) (cert : Bytes) (v : World D)
          → branch b (get_certificate_ca root_ca_var h) (own_certificate root_ca_var h db) w
            ≡ ok cert v
          → ((b ≡ true) × (h.pem_decode (or_empty (w.os.env root_ca_var)) ≡ some cert))
            ⊎ ((b ≡ false)
                × ((key : PrivateKey) × (v : World D) × (db.get_certificate w ≡ ok (cert, key) v)))
      sources true cert v e = inl (refl, from_env cert v e)
      sources false cert v e = inr (
        refl,
        on_ok db.get_certificate _ w e
            λ p u e1 r1. let c : p.0 ≡ cert = cc in (p.1, u, e1 ∙ ap (λ x. ok (x, p.1) u) c),
      )

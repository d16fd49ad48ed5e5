-- ===== src/Core/Quote.antt =====
-- What a client gets from `/quote` (edb/core/core.go: `GenerateReport`, then `GetCertificateReport`)
-- for the database of edb/db/mariadb.go.
use edgelessdb.Prelude.{
  ◌≡◌, ◌⊎◌, inl, inr, ◌∙◌, refl, ap, sym, arith, Bool, true, false, some, ◌++◌, Bytes, String,
}
use edgelessdb.World.{World, Outcome, Host, M, ok, on_ok, branch, or_empty, ◌>>=◌, get, pure}
use edgelessdb.Db.Mariadb.Config.{Mariadb}
use edgelessdb.Db.Mariadb.Startup.{mariadb}
use edgelessdb.Core.Certificate.{
  get_certificate_ca, reported_certificate, generate_report, get_certificate_report,
  get_certificate_report_marble, own_certificate, encode_certificate, report_or_none,
}

pub branch_at :
    {A : Type 0} {b c : Bool} (m n : M Mariadb A) (v : World Mariadb) (r : Outcome Mariadb A)
    → b ≡ c
    → branch b m n v ≡ r
    → branch c m n v ≡ r
branch_at m n v r same e = ap (λ b. branch b m n v) (sym same) ∙ e

module _ (root_ca_var : String) (h : Host) (bootstrap_sql : Bytes) where
  pub get_certificate_ca-eq_ok :
      (ca : Bytes) (w v : World Mariadb)
      → get_certificate_ca root_ca_var h w ≡ ok ca v
      → (v ≡ w)
        × (w.core.is_marble ≡ true)
        × (h.pem_decode (or_empty (w.os.env root_ca_var)) ≡ some ca)
  unfolding get_certificate_ca
  get_certificate_ca-eq_ok ca w v e = (ground arith, ground arith, ground arith)

  encode_certificate-eq_ok :
      (cert pem : Bytes) (w v : World Mariadb)
      → encode_certificate h cert w ≡ ok pem v
      → (pem ≡ h.pem_encode "CERTIFICATE" cert) × (v ≡ w)
  encode_certificate-eq_ok cert pem w v e = (ground arith, ground arith)

  -- The certificate that the quote is about.
  abbrev pub IsQuoted : World Mariadb → Bytes → Bytes → Type 0
  IsQuoted w pem quoted =
      ((w.core.is_marble ≡ false)
        × (quoted ≡ w.db.cert)
        × (pem ≡ h.pem_encode "CERTIFICATE" w.db.cert))
      ⊎ ((w.core.is_marble ≡ true)
          × (h.pem_decode (or_empty (w.os.env root_ca_var)) ≡ some quoted)
          × (pem ≡ h.pem_encode "CERTIFICATE" w.db.cert ++ h.pem_encode "CERTIFICATE" quoted))

  pub generated :
      (w v : World Mariadb)
      → generate_report root_ca_var h (mariadb h bootstrap_sql) w ≡ ok tt v
      → (cert : Bytes) × (v ≡ record w {
        core = record (w.core) { report = report_or_none (h.remote_report (h.sha256 cert)) };
      })
        × (((w.core.is_marble ≡ false) × (cert ≡ w.db.cert))
            ⊎ ((w.core.is_marble ≡ true)
                × (h.pem_decode (or_empty (w.os.env root_ca_var)) ≡ some cert)))
  unfolding generate_report reported_certificate
  generated w v e =
      on_ok (reported_certificate root_ca_var h (mariadb h bootstrap_sql)) _ w e λ cert u e1 r1.
        let (same, from) = sources w.core.is_marble refl cert u e1 in
        let put : v ≡ record u {
          core = record (u.core) { report = report_or_none (h.remote_report (h.sha256 cert)) };
        } =
          cc in
        (cert, rw same at put, from)
    where
      sources :
          (b : Bool)
          → w.core.is_marble ≡ b
          → (cert : Bytes) (u : World Mariadb)
          → branch b
              (get_certificate_ca root_ca_var h)
              (own_certificate root_ca_var h (mariadb h bootstrap_sql))
              w
            ≡ ok cert u
          → (u ≡ w)
            × (((w.core.is_marble ≡ false) × (cert ≡ w.db.cert))
                ⊎ ((w.core.is_marble ≡ true)
                    × (h.pem_decode (or_empty (w.os.env root_ca_var)) ≡ some cert)))
      sources true m cert u e =
          let (same, _, found) = get_certificate_ca-eq_ok cert w u e in (same, inr (m, found))
      sources false m cert u e = (cc, inl (m, cc))

  sent_marble :
      (pem report : Bytes) (v u : World Mariadb)
      → get_certificate_report_marble root_ca_var h (mariadb h bootstrap_sql) v ≡ ok (pem, report) u
      → (report ≡ v.core.report)
        × ((ca : Bytes) × (h.pem_decode (or_empty (v.os.env root_ca_var)) ≡ some ca)
            × (pem ≡ h.pem_encode "CERTIFICATE" v.db.cert ++ h.pem_encode "CERTIFICATE" ca))
  unfolding get_certificate_report_marble
  sent_marble pem report v u e = on_ok (get_certificate_ca root_ca_var h) _ v e λ ca v1 e1 r1.
      on_ok (encode_certificate h v.db.cert) _ v1 r1 λ p1 v2 e2 r2.
        on_ok (encode_certificate h ca) _ v2 r2 λ p2 v3 e3 r3.
          let (s1, _, found) = get_certificate_ca-eq_ok ca v v1 e1 in
          let (f2, s2) = encode_certificate-eq_ok v.db.cert p1 v1 v2 e2 in
          let (f3, s3) = encode_certificate-eq_ok ca p2 v2 v3 e3 in
          let r : Path (Outcome Mariadb (Bytes × Bytes)) (ok (p1 ++ p2, v3.core.report) v3)
              (ok (pem, report) u) =
            r3 in
          let whole : p1 ++ p2 ≡ pem = cc in
          let same : v3.core.report ≡ v.core.report =
            ap (λ (x : World Mariadb). x.core.report) (s3 ∙ s2 ∙ s1) in
          let given : v3.core.report ≡ report = cc in
          (sym given ∙ same, (ca, found, rw (f2, f3) at (sym whole)))

  sent_other :
      (pem report : Bytes) (v u : World Mariadb)
      → ◌≡◌ {A = Outcome Mariadb (Bytes × Bytes)}
          ((do
            cert ← own_certificate root_ca_var h (mariadb h bootstrap_sql)
            p ← encode_certificate h cert
            x ← get
            pure (p, x.core.report))
            v)
          (ok (pem, report) u)
      → (report ≡ v.core.report) × (pem ≡ h.pem_encode "CERTIFICATE" v.db.cert)
  sent_other pem report v u e = on_ok (encode_certificate h v.db.cert) _ v e λ p1 v2 e2 r2.
      let (f2, s2) = encode_certificate-eq_ok v.db.cert p1 v v2 e2 in
      let r : Path (Outcome Mariadb (Bytes × Bytes)) (ok (p1, v2.core.report) v2)
          (ok (pem, report) u) =
        r2 in
      let whole : p1 ≡ pem = cc in
      let given : v2.core.report ≡ report = cc in
      (sym given ∙ ap (λ (x : World Mariadb). x.core.report) s2, sym whole ∙ f2)

  -- A quote that a client gets after a report was made, with nothing in between, is about a
  -- certificate that it is sent: the report is the one for the SHA-256 hash of the database's
  -- certificate, which is all that is sent, or on a Marble for that of the root certificate from the
  -- environment, which is sent behind the database's. Where the attestation failed the report is
  -- empty.
  pub get_certificate_report-generate_report :
      (pem report : Bytes) (w v u : World Mariadb)
      → generate_report root_ca_var h (mariadb h bootstrap_sql) w ≡ ok tt v
      → get_certificate_report root_ca_var h (mariadb h bootstrap_sql) v ≡ ok (pem, report) u
      → (quoted : Bytes) × (report ≡ report_or_none (h.remote_report (h.sha256 quoted)))
        × IsQuoted w pem quoted
  unfolding get_certificate_report
  get_certificate_report-generate_report pem report w v u made got =
      let (cert, put, from) = generated w v made in
      let report_of : v.core.report ≡ report_or_none (h.remote_report (h.sha256 cert)) =
        ap (λ (x : World Mariadb). x.core.report) put in
      elim from [
        | inl (other, own) ↦
            let m : v.core.is_marble ≡ false =
              ap (λ (x : World Mariadb). x.core.is_marble) put ∙ other in
            let (r, p) = sent_other pem report v u (branch_at _ _ v (ok (pem, report) u) m got) in
            (
              cert,
              r ∙ report_of,
              inl (
                other,
                own,
                p ∙ ap (λ (x : World Mariadb). h.pem_encode "CERTIFICATE" x.db.cert) put,
              ),
            )
        | inr (marble, found) ↦
            let m : v.core.is_marble ≡ true =
              ap (λ (x : World Mariadb). x.core.is_marble) put ∙ marble in
            let (r, (ca, found', p)) =
              sent_marble pem report v u (branch_at _ _ v (ok (pem, report) u) m got) in
            let env : h.pem_decode (or_empty (v.os.env root_ca_var))
                ≡ h.pem_decode (or_empty (w.os.env root_ca_var)) =
              ap (λ (x : World Mariadb). h.pem_decode (or_empty (x.os.env root_ca_var))) put in
            let same : ca ≡ cert = cc in
            let cert_same : v.db.cert ≡ w.db.cert = ap (λ (x : World Mariadb). x.db.cert) put in
            (cert, r ∙ report_of, inr (marble, found, rw (cert_same, same) at p))
      ]

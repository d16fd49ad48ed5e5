-- ===== src/Core/Chain.antt =====
-- The certificates that TLS clients see (edb/core/core.go: `GetTLSConfig`, `getConfigForClient`), for
-- the database of edb/db/mariadb.go.
use edgelessdb.Prelude.{
  ◌≡◌, ◌⊎◌, inl, inr, ◌∙◌, ap, sym, arith, ℕ, true, false, Option, some, List, [], ◌∷◌, Bytes,
  String, text, is_empty, if◌then◌else◌,
}
use edgelessdb.World.{
  World, Outcome, Host, M, PrivateKey, Template, hours, ok, on_ok, or_empty, must, val, Result,
  from_result, pure,
}
use edgelessdb.Db.Util.{generate_serial}
use edgelessdb.Db.Mariadb.Config.{Mariadb}
use edgelessdb.Db.Mariadb.Startup.{mariadb}
use edgelessdb.Core.Certificate.{
  TlsConfig, get_certificate_ca, generate_report, create_certificate, get_tls_config,
  get_tls_config_marble, get_config_for_client, report_or_none, local_ips,
}
use edgelessdb.Core.Quote.{branch_at, generated, get_certificate_ca-eq_ok}

-- What the certificate for a connection is made from: the name that the client asked for, or else the
-- configured one; the local address and the one that the client reached; an hour.
abbrev pub connection_template : Bytes → Bytes → Bytes → Option Bytes → Template
connection_template serial dns_name server_name local_ip = record {
  serial = serial;
  organization = text "EDB ephemeral";
  dns_name = if is_empty server_name then dns_name else server_name;
  ips = local_ips local_ip;
  lifetime = hours 1;
  is_ca = false;
}

module _ (root_ca_var : String) (h : Host) (bootstrap_sql : Bytes) where
  from_result-eq_ok :
      {A : Type 0} (r : Result A) (a : A) (w v : World Mariadb)
      → from_result r w ≡ ok a v
      → r ≡ val a
  from_result-eq_ok r a w v e = ground arith

  must-eq_ok :
      {A : Type 0} (m : M Mariadb A) (a : A) (w v : World Mariadb)
      → must m w ≡ ok a v
      → m w ≡ ok a v
  must-eq_ok m a w v e = ground arith

  sent_marble :
      (t : TlsConfig) (v u : World Mariadb)
      → get_tls_config_marble root_ca_var h (mariadb h bootstrap_sql) v ≡ ok t u
      → (ca : Bytes) × (h.pem_decode (or_empty (v.os.env root_ca_var)) ≡ some ca)
        × (t.chain ≡ v.db.cert ∷ ca ∷ [])
        × (t.key ≡ v.db.key)
  unfolding get_tls_config_marble
  sent_marble t v u e =
      on_ok (must (get_certificate_ca root_ca_var h))
        (λ ca. pure (record { chain = v.db.cert ∷ ca ∷ []; key = v.db.key; per_client = true })) v e
        λ ca v1 e1 r1.
          let (_, _, found) =
            get_certificate_ca-eq_ok root_ca_var h bootstrap_sql ca v v1
              (must-eq_ok (get_certificate_ca root_ca_var h) ca v v1 e1) in
          let given : Path TlsConfig
              (record { chain = v.db.cert ∷ ca ∷ []; key = v.db.key; per_client = true }) t =
            cc in
          (
            ca,
            found,
            ap (λ (x : TlsConfig). x.chain) (sym given),
            ap (λ (x : TlsConfig). x.key) (sym given),
          )

  -- The server's chain after a report was made, with nothing in between, ends in the certificate that
  -- the report is about: the database's own, which is all of it, or on a Marble the root certificate
  -- from the environment, behind the database's. The key is the database's.
  pub get_tls_config-generate_report :
      (t : TlsConfig) (w v u : World Mariadb)
      → generate_report root_ca_var h (mariadb h bootstrap_sql) w ≡ ok tt v
      → get_tls_config root_ca_var h (mariadb h bootstrap_sql) v ≡ ok t u
      → (root : Bytes) × (v.core.report ≡ report_or_none (h.remote_report (h.sha256 root)))
        × (t.key ≡ w.db.key)
        × (((w.core.is_marble ≡ false) × (root ≡ w.db.cert) × (t.chain ≡ root ∷ []))
            ⊎ ((w.core.is_marble ≡ true)
                × (h.pem_decode (or_empty (w.os.env root_ca_var)) ≡ some root)
                × (t.chain ≡ w.db.cert ∷ root ∷ [])))
  unfolding get_tls_config
  get_tls_config-generate_report t w v u made got =
      let (cert, put, from) = generated root_ca_var h bootstrap_sql w v made in
      let report_of : v.core.report ≡ report_or_none (h.remote_report (h.sha256 cert)) =
        ap (λ (x : World Mariadb). x.core.report) put in
      let own_cert : v.db.cert ≡ w.db.cert = ap (λ (x : World Mariadb). x.db.cert) put in
      let own_key : v.db.key ≡ w.db.key = ap (λ (x : World Mariadb). x.db.key) put in
      elim from [
        | inl (other, own) ↦
            let m : v.core.is_marble ≡ false =
              ap (λ (x : World Mariadb). x.core.is_marble) put ∙ other in
            let (c, k) = sent_other (branch_at _ _ v (ok t u) m got) in
            (
              cert,
              report_of,
              k ∙ own_key,
              inl (other, own, c ∙ ap (λ x. x ∷ []) (own_cert ∙ sym own)),
            )
        | inr (marble, found) ↦
            let m : v.core.is_marble ≡ true =
              ap (λ (x : World Mariadb). x.core.is_marble) put ∙ marble in
            let (ca, found', c, k) = sent_marble t v u (branch_at _ _ v (ok t u) m got) in
            let env : h.pem_decode (or_empty (v.os.env root_ca_var))
                ≡ h.pem_decode (or_empty (w.os.env root_ca_var)) =
              ap (λ (x : World Mariadb). h.pem_decode (or_empty (x.os.env root_ca_var))) put in
            let same : ca ≡ cert = cc in
            (cert, report_of, k ∙ own_key, inr (marble, found, rw (own_cert, same) at c))
      ]
    where
      sent_other :
          Path
            (Outcome Mariadb TlsConfig)
            (ok (record { chain = v.db.cert ∷ []; key = v.db.key; per_client = true }) v)
            (ok t u)
          → (t.chain ≡ v.db.cert ∷ []) × (t.key ≡ v.db.key)
      sent_other e =
          let given : Path TlsConfig
              (record { chain = v.db.cert ∷ []; key = v.db.key; per_client = true }) t =
            cc in
          (ap (λ (x : TlsConfig). x.chain) (sym given), ap (λ (x : TlsConfig). x.key) (sym given))

  create_certificate-eq_ok :
      (hostname : Bytes) (ips : List Bytes) (signer : Bytes) (signer_key : PrivateKey)
      (made : Bytes × PrivateKey) (w v : World Mariadb)
      → create_certificate h hostname ips signer signer_key w ≡ ok made v
      → (serial : Bytes) × (draw : ℕ) × (h.generate_key draw ≡ val made.1)
        × (h.sign
              (record {
                serial = serial;
                organization = text "EDB ephemeral";
                dns_name = hostname;
                ips = ips;
                lifetime = hours 1;
                is_ca = false;
              })
              signer
              made.1
              signer_key
            ≡ val made.0)
  unfolding create_certificate
  create_certificate-eq_ok hostname ips signer signer_key made w v e =
      on_ok (generate_serial h) _ w e λ serial w1 e1 r1.
        on_ok (from_result (h.parse_certificate signer)) _ w1 r1 λ parsed w2 e2 r2.
          on_ok (from_result (h.generate_key w2.os.ticks)) _ _ r2 λ priv w3 e3 r3.
            let drawn : h.generate_key w2.os.ticks ≡ val priv = ground arith in
            on_ok (from_result (h.sign _ signer priv signer_key)) _ w3 r3 λ cert w4 e4 r4.
              let is : Path (Bytes × PrivateKey) (cert, priv) made = cc in
              let p0 : cert ≡ made.0 = ap (λ x. x.0) is in
              let p1 : priv ≡ made.1 = ap (λ x. x.1) is in
              let signed = from_result-eq_ok _ cert w3 w4 e4 in
              (
                serial,
                w2.os.ticks,
                drawn ∙ ap (λ x. Result.val x) p1,
                rw p1 at signed ∙ ap (λ x. Result.val x) p0,
              )

  -- The chain for a connection, behind a report that was made with nothing in between: a fresh
  -- certificate and key, and the database's certificate, whose key signed the fresh one. It is for
  -- the name that the client asked for, or for the configured one if the client asked for none, and
  -- for the local address and the one that the client reached; it lasts an hour and is no CA. On no
  -- Marble the report is about the certificate that ends the chain.
  pub get_config_for_client-generate_report :
      (server_name : Bytes) (local_ip : Option Bytes) (t : TlsConfig) (w v u : World Mariadb)
      → generate_report root_ca_var h (mariadb h bootstrap_sql) w ≡ ok tt v
      → get_config_for_client root_ca_var h (mariadb h bootstrap_sql) server_name local_ip v
        ≡ ok t u
      → (leaf : Bytes) × (serial : Bytes) × (draw : ℕ) × (t.chain ≡ leaf ∷ w.db.cert ∷ [])
        × (h.generate_key draw ≡ val t.key)
        × (h.sign
              (connection_template serial w.core.cfg.certificate_dns_name server_name local_ip)
              w.db.cert
              t.key
              w.db.key
            ≡ val leaf)
        × ((w.core.is_marble ≡ true)
            ⊎ (v.core.report ≡ report_or_none (h.remote_report (h.sha256 w.db.cert))))
  unfolding get_config_for_client
  get_config_for_client-generate_report server_name local_ip t w v u reported got =
      let (root, put, from) = generated root_ca_var h bootstrap_sql w v reported in
      let name : Bytes =
        if is_empty server_name then v.core.cfg.certificate_dns_name else server_name in
      let server_chain : Bytes × PrivateKey → TlsConfig =
        λ p. record { chain = p.0 ∷ v.db.cert ∷ []; key = p.1; per_client = false } in
      on_ok {B = TlsConfig} (create_certificate h name (local_ips local_ip) v.db.cert v.db.key)
        (λ p. pure (server_chain p)) v got
        λ p v1 e1 r1.
          let (serial, draw, drawn, signed) =
            create_certificate-eq_ok name (local_ips local_ip) v.db.cert v.db.key p v v1 e1 in
          let given : server_chain p ≡ t = cc in
          let same_cert : v.db.cert ≡ w.db.cert = ap (λ (x : World Mariadb). x.db.cert) put in
          let same_key : v.db.key ≡ w.db.key = ap (λ (x : World Mariadb). x.db.key) put in
          let same_name : v.core.cfg.certificate_dns_name ≡ w.core.cfg.certificate_dns_name =
            ap (λ (x : World Mariadb). x.core.cfg.certificate_dns_name) put in
          let k : p.1 ≡ t.key = ap (λ (x : TlsConfig). x.key) given in
          (
            p.0,
            serial,
            draw,
            ap (λ (x : TlsConfig). x.chain) (sym given) ∙ ap (λ x. p.0 ∷ x ∷ []) same_cert,
            drawn ∙ ap (λ x. Result.val x) k,
            rw (same_cert, same_key, same_name, k) at signed,
            elim from [
              | inl (other, own) ↦ inr (
                  ap (λ (x : World Mariadb). x.core.report) put
                  ∙ ap (λ x. report_or_none (h.remote_report (h.sha256 x))) own)
              | inr (marble, _) ↦ inl marble
            ],
          )

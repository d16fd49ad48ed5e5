-- ===== src/Examples/Chain.antt =====
-- The theorems on the certificates of TLS clients at concrete inputs.
use edgelessdb.Prelude.{ℕ, ◌≡◌, ◌⊎◌, refl, some, true, false, Bytes, [], ◌∷◌}
use edgelessdb.World.{World, after, val, or_empty}
use edgelessdb.Db.Mariadb.Config.{Mariadb}
use edgelessdb.Db.Mariadb.Startup.{mariadb}
use edgelessdb.Core.Certificate.{
  TlsConfig, get_tls_config, get_config_for_client, create_certificate, generate_report,
  reported_certificate, report_or_none,
}
use edgelessdb.Core.Chain.{
  connection_template, get_tls_config-generate_report, get_config_for_client-generate_report,
}
use edgelessdb.Examples.Objects.{mock_host, some_key}
use edgelessdb.Examples.Databases.{fresh, reported}

abbrev server : TlsConfig
server = record { chain = (6 ∷ []) ∷ []; key = some_key; per_client = true }

get_tls_config-generate_report_example :
    (root : Bytes) × (reported.core.report
      ≡ report_or_none (mock_host.remote_report (mock_host.sha256 root)))
    × (server.key ≡ fresh.db.key)
    × (((fresh.core.is_marble ≡ false) × (root ≡ fresh.db.cert) × (server.chain ≡ root ∷ []))
        ⊎ ((fresh.core.is_marble ≡ true)
            × (mock_host.pem_decode (or_empty (fresh.os.env "CA")) ≡ some root)
            × (server.chain ≡ fresh.db.cert ∷ root ∷ [])))
unfolding generate_report reported_certificate get_tls_config
get_tls_config-generate_report_example =
    get_tls_config-generate_report "CA" mock_host [] server fresh reported reported refl refl

-- A client that asks for no name and reaches the address 1.2.3.4.
abbrev connected : World Mariadb
connected = after (
    get_config_for_client "CA" mock_host (mariadb mock_host []) [] (some (1 ∷ 2 ∷ 3 ∷ 4 ∷ []))
      reported)

abbrev connection : TlsConfig
connection = record { chain = (6 ∷ []) ∷ (6 ∷ []) ∷ []; key = some_key; per_client = false }

get_config_for_client-generate_report_example :
    (leaf : Bytes) × (serial : Bytes) × (draw : ℕ) × (connection.chain ≡ leaf ∷ fresh.db.cert ∷ [])
    × (mock_host.generate_key draw ≡ val connection.key)
    × (mock_host.sign
          (connection_template serial fresh.core.cfg.certificate_dns_name []
            (some (1 ∷ 2 ∷ 3 ∷ 4 ∷ [])))
          fresh.db.cert
          connection.key
          fresh.db.key
        ≡ val leaf)
    × ((fresh.core.is_marble ≡ true)
        ⊎ (reported.core.report
            ≡ report_or_none (mock_host.remote_report (mock_host.sha256 fresh.db.cert))))
unfolding generate_report reported_certificate get_config_for_client create_certificate
get_config_for_client-generate_report_example =
    get_config_for_client-generate_report "CA" mock_host [] [] (some (1 ∷ 2 ∷ 3 ∷ 4 ∷ []))
      connection fresh reported connected refl refl

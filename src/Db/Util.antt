-- ===== src/Db/Util.antt =====
-- edb/db/util.go and edb/util/util.go: addresses, PEM files and the root certificate.
pub mod Address
use edgelessdb.Prelude.{
  true, Option, none, some, [], ◌∷◌, String, Bytes, text, is_empty, if◌then◌else◌,
}
use edgelessdb.Std.Net
use edgelessdb.World.{
  Host, Template, years, PrivateKey, M, ◌>>=◌, ◌>>◌, pure, throw, from_result, fail_if, tick,
  pem_encode_failed,
}

abbrev pub default : Bytes → Bytes → Bytes
default value fallback = if is_empty value then fallback else value

abbrev pub any_address : Bytes
any_address = text "0.0.0.0"

-- An address that cannot be split is a host alone.
abbrev pub fill_in : Bytes → Bytes → Option (Bytes × Bytes) → Bytes × Bytes
fill_in address port none = (address, port)
fill_in address port (some (host, p)) = (default host any_address, default p port)

-- `splitHostPort`
unfoldable pub split_host_port : Bytes → Bytes → Bytes × Bytes
split_host_port address port =
    if is_empty address
    then (any_address, port)
    else fill_in address port (Net.split_host_port address)

abbrev root_template : Bytes → Bytes → Template
root_template number dns_name = record {
  serial = number;
  organization = text "EDB root";
  dns_name = dns_name;
  ips = [];
  lifetime = years 10;
  is_ca = true;
}

module _ (h : Host) {D : Type 0} where
  -- `pem.EncodeToMemory`, which gives nothing on failure
  abbrev pub encode_pem : String → Bytes → M D Bytes
  encode_pem kind block =
      let pem = h.pem_encode kind block in fail_if (is_empty pem) pem_encode_failed >> pure pem

  -- `toPEM`
  unfoldable pub to_pem : Bytes → PrivateKey → M D (Bytes × Bytes)
  to_pem cert key = do
    pem_cert ← encode_pem "CERTIFICATE" cert
    key_bytes ← from_result (h.marshal_pkcs8 key)
    pem_key ← encode_pem "PRIVATE KEY" key_bytes
    pure (pem_cert, pem_key)

  -- `GenerateCertificateSerialNumber`
  unfoldable pub generate_serial : M D Bytes
  generate_serial = do k ← tick; from_result (h.serial k)

  -- `createCertificate`: a CA certificate for ten years, signed by its own key.
  unfoldable pub create_certificate : Bytes → M D (Bytes × PrivateKey)
  unfolding generate_serial
  create_certificate dns_name = do
    number ← generate_serial
    k ← tick
    priv ← from_result (h.generate_key k)
    cert ← from_result (h.self_sign (root_template number dns_name) priv)
    pure (cert, priv)

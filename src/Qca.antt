-- ===== src/Qca.antt =====
-- What common/Security.cpp uses of the Qt Cryptographic Architecture, and what QCA promises of it.
use sepm_group.Prelude.{ℕ, ◌≡◌, Bool, Option, Text, length}
use sepm_group.Prelude.Effects.{Eff, ok}
use sepm_group.Sdc.{Exception}

-- `QCA::Direction`
pub data Direction : Type 0 where
  encode decode : Direction

-- `QCA::ConvertResult`
pub data ConvertResult : Type 0 where
  convert_good error_decode error_passphrase error_file : ConvertResult

-- `QCA::EncryptionAlgorithm` and `QCA::SignatureAlgorithm`, as far as the source names them.
pub data EncryptionAlgorithm : Type 0 where
  eme_pkcs1_oaep : EncryptionAlgorithm

pub data SignatureAlgorithm : Type 0 where
  emsa3_sha1 : SignatureAlgorithm

pub record Qca : Type 1 where
  -- The random source and the key files.
  pub State : Type 0
  pub PublicKey : Type 0
  pub PrivateKey : Type 0
  -- What `QByteArray::resize` leaves in new bytes.
  pub junk : ℕ → ℕ
  -- `isSupported("pkey")`, `supportedIOTypes().contains(RSA)`, `isSupported("aes256-ofb")`
  pub supports_pkey : Bool
  pub supports_rsa_io : Bool
  pub supports_aes256_ofb : Bool
  -- `SymmetricKey(n)` and `InitializationVector(n)`: random bytes
  pub symmetric_key : ℕ → Eff State Exception Text
  pub initialization_vector : ℕ → Eff State Exception Text
  -- `cipher->setup(dir, key, iv)` and `cipher->process(bytes)`
  pub process : Direction → Text → Text → Text → Text
  pub can_encrypt : PublicKey → Bool
  pub can_verify : PublicKey → Bool
  pub maximum_encrypt_size : PublicKey → EncryptionAlgorithm → ℕ
  pub encrypt : PublicKey → Text → EncryptionAlgorithm → Eff State Exception Text
  pub verify_message : PublicKey → Text → Text → SignatureAlgorithm → Bool
  pub can_decrypt : PrivateKey → Bool
  pub can_sign : PrivateKey → Bool
  -- `bitSize()`
  pub bit_size : PrivateKey → ℕ
  pub decrypt : PrivateKey → Text → EncryptionAlgorithm → Option Text
  pub sign_message : PrivateKey → Text → SignatureAlgorithm → Eff State Exception Text
  pub to_public_key : PrivateKey → PublicKey
  pub create_rsa : ℕ → Eff State Exception PrivateKey
  pub public_to_pem : PublicKey → Text
  pub private_to_pem : PrivateKey → Text
  pub public_from_pem : Text → ConvertResult × PublicKey
  -- `fromPEM(text)` with no passphrase
  pub private_from_pem : Text → ConvertResult × PrivateKey
  -- `fromPEMFile` and `toPEMFile`, by file name (and passphrase)
  pub public_from_pem_file : Text → State → ConvertResult × PublicKey
  pub private_from_pem_file : Text → Text → State → ConvertResult × PrivateKey
  pub public_to_pem_file : PublicKey → Text → State → Bool × State
  pub private_to_pem_file : PrivateKey → Text → Text → State → Bool × State

-- Random bytes come in the number that was asked for.
abbrev pub Yields : {S : Type 0} → Eff S Exception Text → ℕ → S → Type 0
Yields m n s = (t : Text) × ((m s).0 ≡ ok t) × (length t ≡ n)

-- A key is drawn with as many bytes as asked for.
pub record DrawsKeys (Q : Qca) : Type 0 where
  pub key_size : (n : ℕ) (s : Q.State) → Yields (Q.symmetric_key n) n s

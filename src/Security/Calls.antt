-- ===== src/Security/Calls.antt =====
-- The class of common/Security.h as the calls that its users and its own methods can make.
pub mod Refusals
use sepm_group.Prelude.{ℕ, Bool, Text}
use sepm_group.Prelude.Effects.{◌>>=◌, ◌>>◌, pure}
use sepm_group.SdcHelper.{ByteSeq}
use sepm_group.Qca.{Qca, Direction}
use sepm_group.Security.{
  Security, Call, encrypt_rsa, decrypt_rsa, sign_rsa, verify_rsa, process_aes, encrypt_aes,
  decrypt_aes, gen_aes_key,
}
use sepm_group.Security.Keys.{
  encrypt_rsa_file, encrypt_rsa_pem, decrypt_rsa_file, decrypt_rsa_passphrase, decrypt_rsa_pem,
  sign_rsa_file, sign_rsa_passphrase, sign_rsa_pem, verify_rsa_file, verify_rsa_pem, gen_rsa_key,
  save_priv_key, save_pub_key, read_priv_key, read_pub_key,
}

-- Encryption and decryption with RSA, by key file, by key file and passphrase, or by PEM text.
pub data RsaCall : Type 0 where
  encrypts_file : (pubkeyfile : Text) (bytes : ByteSeq) → RsaCall
  encrypts_pem : (pubkey bytes : ByteSeq) → RsaCall
  decrypts_file : (privkeyfile : Text) (bytes : ByteSeq) → RsaCall
  decrypts_passphrase : (privkeyfile passphrase : Text) (bytes : ByteSeq) → RsaCall
  decrypts_pem : (privkey bytes : ByteSeq) → RsaCall

pub data SignatureCall : Type 0 where
  signs_file : (privkeyfile : Text) (bytes : ByteSeq) → SignatureCall
  signs_passphrase : (privkeyfile passphrase : Text) (bytes : ByteSeq) → SignatureCall
  signs_pem : (privkey bytes : ByteSeq) → SignatureCall
  verifies_file : (pubkeyfile : Text) (bytes signature : ByteSeq) → SignatureCall
  verifies_pem : (pubkey bytes signature : ByteSeq) → SignatureCall

pub data AesCall : Type 0 where
  encrypts_aes : (key bytes : ByteSeq) → AesCall
  decrypts_aes : (key bytes : ByteSeq) → AesCall

pub data KeyCall : Type 0 where
  gens_rsa_key : (bits : ℕ) → KeyCall
  saves_priv_key : (privkey : ByteSeq) (privkeyfile passphrase : Text) → KeyCall
  saves_pub_key : (pubkey : ByteSeq) (pubkeyfile : Text) → KeyCall
  reads_priv_key : (privkeyfile passphrase : Text) → KeyCall
  reads_pub_key : (pubkeyfile : Text) → KeyCall
  gens_aes_key : (size : ℕ) → KeyCall

-- The protected methods, which take keys of QCA.
pub data ProtectedCall (Q : Qca) : Type 0 where
  encrypts_key : Q.PublicKey → ByteSeq → ProtectedCall Q
  decrypts_key : Q.PrivateKey → ByteSeq → ProtectedCall Q
  signs_key : Q.PrivateKey → ByteSeq → ProtectedCall Q
  verifies_key : Q.PublicKey → ByteSeq → ByteSeq → ProtectedCall Q
  processes_aes : (key bytes : ByteSeq) → Direction → ProtectedCall Q

pub data AnyCall (Q : Qca) : Type 0 where
  rsa_method : RsaCall → AnyCall Q
  signature_method : SignatureCall → AnyCall Q
  aes_method : AesCall → AnyCall Q
  key_method : KeyCall → AnyCall Q
  protected_method : ProtectedCall Q → AnyCall Q

-- The `bits` that `genRSAKey` takes when its caller names none.
abbrev pub default_bits : ℕ
default_bits = 2048

-- What a call returns.
pub data Reply : Type 0 where
  nothing : Reply
  bytes : ByteSeq → Reply
  verdict : Bool → Reply
  key_pair : ByteSeq × ByteSeq → Reply

module _ (Q : Qca) (self : Security) where
  abbrev pub replies : {A : Type 0} → (A → Reply) → Call Q A → Call Q Reply
  replies f m = m >>= λ a. pure (f a)

  unfoldable pub rsa_call : RsaCall → Call Q Reply
  rsa_call (encrypts_file file b) = replies bytes (encrypt_rsa_file Q self file b)
  rsa_call (encrypts_pem pubkey b) = replies bytes (encrypt_rsa_pem Q self pubkey b)
  rsa_call (decrypts_file file b) = replies bytes (decrypt_rsa_file Q self file b)
  rsa_call (decrypts_passphrase file pw b) = replies bytes (decrypt_rsa_passphrase Q self file pw b)
  rsa_call (decrypts_pem privkey b) = replies bytes (decrypt_rsa_pem Q self privkey b)

  unfoldable pub signature_call : SignatureCall → Call Q Reply
  signature_call (signs_file file b) = replies bytes (sign_rsa_file Q self file b)
  signature_call (signs_passphrase file pw b) = replies bytes (sign_rsa_passphrase Q self file pw b)
  signature_call (signs_pem privkey b) = replies bytes (sign_rsa_pem Q self privkey b)
  signature_call (verifies_file file b sig) = replies verdict (verify_rsa_file Q self file b sig)
  signature_call (verifies_pem pubkey b sig) = replies verdict (verify_rsa_pem Q self pubkey b sig)

  unfoldable pub aes_call : AesCall → Call Q Reply
  aes_call (encrypts_aes key b) = replies bytes (encrypt_aes Q self key b)
  aes_call (decrypts_aes key b) = replies bytes (decrypt_aes Q self key b)

  unfoldable pub key_call : KeyCall → Call Q Reply
  key_call (gens_rsa_key bits) = replies key_pair (gen_rsa_key Q self bits)
  key_call (saves_priv_key privkey file pw) = save_priv_key Q self privkey file pw >> pure nothing
  key_call (saves_pub_key pubkey file) = save_pub_key Q self pubkey file >> pure nothing
  key_call (reads_priv_key file pw) = replies bytes (read_priv_key Q self file pw)
  key_call (reads_pub_key file) = replies bytes (read_pub_key Q self file)
  key_call (gens_aes_key size) = replies bytes (gen_aes_key Q self size)

  unfoldable pub protected_call : ProtectedCall Q → Call Q Reply
  protected_call (encrypts_key key b) = replies bytes (encrypt_rsa Q self key b)
  protected_call (decrypts_key key b) = replies bytes (decrypt_rsa Q self key b)
  protected_call (signs_key key b) = replies bytes (sign_rsa Q self key b)
  protected_call (verifies_key key b sig) = replies verdict (verify_rsa Q self key b sig)
  protected_call (processes_aes key b dir) = replies bytes (process_aes Q self key b dir)

  unfoldable pub call : AnyCall Q → Call Q Reply
  call (rsa_method c) = rsa_call c
  call (signature_method c) = signature_call c
  call (aes_method c) = aes_call c
  call (key_method c) = key_call c
  call (protected_method c) = protected_call c

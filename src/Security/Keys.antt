-- ===== src/Security/Keys.antt =====
-- The rest of common/Security.cpp: the operations by PEM text and by file, and those on keys.
use sepm_group.Prelude.{
  ℕ, Bool, true, false, not, [], ◌∷◌, ◌++◌, Text, codes, length, ◌==◌, if◌then◌else◌,
}
use sepm_group.Prelude.Effects.{ok, ◌>>=◌, ◌>>◌, pure, throw}
use sepm_group.SdcHelper.{ByteSeq, b_string_to_byte_seq, get_binary_string}
use sepm_group.Sdc.{security_exception}
use sepm_group.Qca.{Qca, ConvertResult, convert_good, error_decode, error_passphrase, error_file}
use sepm_group.Security.{
  Security, Call, throw_if, defined, encrypt_rsa, decrypt_rsa, sign_rsa, verify_rsa,
}

-- What a function that takes a `const char*` sees of a string: the bytes before the first zero.
unfoldable pub c_string : Text → Text
c_string [] = []
c_string (c ∷ s) = let rest = c_string s in if c == 0 then [] else c ∷ rest

-- `QCA::ConvertGood != r`
abbrev pub is_bad : ConvertResult → Bool
is_bad convert_good = false
is_bad _ = true

module _ (Q : Qca) (self : Security) where
  -- Reads the state, as the loading of a key file does.
  abbrev pub look : {A : Type 0} → (Q.State → A) → Call Q A
  look f s = (ok (f s), s)

  -- A call that writes a key file and says whether it could.
  abbrev pub attempt : (Q.State → Bool × Q.State) → Call Q Bool
  attempt f s = (ok (f s).0, (f s).1)

  unfoldable pub encrypt_rsa_file : Text → ByteSeq → Call Q ByteSeq
  encrypt_rsa_file pubkeyfile bytes = do
    key ← look (λ s. (Q.public_from_pem_file pubkeyfile s).1)
    encrypt_rsa Q self key bytes

  unfoldable pub encrypt_rsa_pem : ByteSeq → ByteSeq → Call Q ByteSeq
  encrypt_rsa_pem pubkey bytes =
      encrypt_rsa Q self (Q.public_from_pem (get_binary_string pubkey)).1 bytes

  unfoldable pub decrypt_rsa_file : Text → ByteSeq → Call Q ByteSeq
  decrypt_rsa_file privkeyfile bytes = do
    key ← look (λ s. (Q.private_from_pem_file privkeyfile [] s).1)
    decrypt_rsa Q self key bytes

  unfoldable pub decrypt_rsa_passphrase : Text → Text → ByteSeq → Call Q ByteSeq
  decrypt_rsa_passphrase privkeyfile passphrase bytes = do
    key ← look (λ s. (Q.private_from_pem_file privkeyfile (c_string passphrase) s).1)
    decrypt_rsa Q self key bytes

  unfoldable pub decrypt_rsa_pem : ByteSeq → ByteSeq → Call Q ByteSeq
  decrypt_rsa_pem privkey bytes =
      decrypt_rsa Q self (Q.private_from_pem (get_binary_string privkey)).1 bytes

  unfoldable pub sign_rsa_file : Text → ByteSeq → Call Q ByteSeq
  sign_rsa_file privkeyfile bytes = do
    key ← look (λ s. (Q.private_from_pem_file privkeyfile [] s).1)
    sign_rsa Q self key bytes

  unfoldable pub sign_rsa_passphrase : Text → Text → ByteSeq → Call Q ByteSeq
  sign_rsa_passphrase privkeyfile passphrase bytes = do
    key ← look (λ s. (Q.private_from_pem_file privkeyfile (c_string passphrase) s).1)
    sign_rsa Q self key bytes

  unfoldable pub sign_rsa_pem : ByteSeq → ByteSeq → Call Q ByteSeq
  sign_rsa_pem privkey bytes =
      sign_rsa Q self (Q.private_from_pem (get_binary_string privkey)).1 bytes

  unfoldable pub verify_rsa_file : Text → ByteSeq → ByteSeq → Call Q Bool
  verify_rsa_file pubkeyfile bytes signature = do
    key ← look (λ s. (Q.public_from_pem_file pubkeyfile s).1)
    verify_rsa Q self key bytes signature

  unfoldable pub verify_rsa_pem : ByteSeq → ByteSeq → ByteSeq → Call Q Bool
  verify_rsa_pem pubkey bytes signature =
      verify_rsa Q self (Q.public_from_pem (get_binary_string pubkey)).1 bytes signature

  -- The two references to write to are the two results.
  unfoldable pub gen_rsa_key : ℕ → Call Q (ByteSeq × ByteSeq)
  gen_rsa_key bits = do
    throw_if Q (not self.m_rsa) (codes "RSA not supported")
    key ← Q.create_rsa bits
    pubkey ← defined Q (
        b_string_to_byte_seq (Q.public_to_pem (Q.to_public_key key))
          (length (Q.public_to_pem (Q.to_public_key key))))
    privkey ←
        defined Q (b_string_to_byte_seq (Q.private_to_pem key) (length (Q.private_to_pem key)))
    pure (pubkey, privkey)

  unfoldable pub save_priv_key : ByteSeq → Text → Text → Call Q (Unit {0})
  save_priv_key privkey privkeyfile passphrase = do
    throw_if Q (not self.m_rsa) (codes "RSA not supported")
    let converted = Q.private_from_pem (c_string (get_binary_string privkey))
    throw_if Q (is_bad converted.0) (codes "failed to read private key from input")
    saved ← attempt (Q.private_to_pem_file converted.1 privkeyfile (c_string passphrase))
    throw_if Q (not saved) (codes "failed to save key")

  unfoldable pub save_pub_key : ByteSeq → Text → Call Q (Unit {0})
  save_pub_key pubkey pubkeyfile = do
    throw_if Q (not self.m_rsa) (codes "RSA not supported")
    let converted = Q.public_from_pem (c_string (get_binary_string pubkey))
    throw_if Q (is_bad converted.0) (codes "failed to read public key from input")
    saved ← attempt (Q.public_to_pem_file converted.1 pubkeyfile)
    throw_if Q (not saved) (codes "failed to save key")

  -- The exception of `readPrivKey`, by what went wrong.
  abbrev pub priv_key_problem : ConvertResult → Call Q (Unit {0})
  priv_key_problem convert_good = pure tt
  priv_key_problem error_file =
      throw (security_exception (codes "failed to read private key from file"))
  priv_key_problem error_passphrase = throw (security_exception (codes "wrong passphrase"))
  priv_key_problem error_decode = throw (security_exception (codes "decoding failed"))

  unfoldable pub read_priv_key : Text → Text → Call Q ByteSeq
  read_priv_key privkeyfile passphrase = do
    throw_if Q (not self.m_rsa) (codes "RSA not supported")
    converted ← look (Q.private_from_pem_file privkeyfile (c_string passphrase))
    priv_key_problem converted.0
    let pem = Q.private_to_pem converted.1
    defined Q (b_string_to_byte_seq (pem ++ (0 ∷ [])) (length pem))

  abbrev pub pub_key_problem : ConvertResult → Call Q (Unit {0})
  pub_key_problem convert_good = pure tt
  pub_key_problem error_file =
      throw (security_exception (codes "failed to read public key from file"))
  pub_key_problem _ = throw (security_exception (codes "decoding failed"))

  unfoldable pub read_pub_key : Text → Call Q ByteSeq
  read_pub_key pubkeyfile = do
    throw_if Q (not self.m_rsa) (codes "RSA not supported")
    converted ← look (Q.public_from_pem_file pubkeyfile)
    pub_key_problem converted.0
    let pem = Q.public_to_pem converted.1
    defined Q (b_string_to_byte_seq (pem ++ (0 ∷ [])) (length pem))

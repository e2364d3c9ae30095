-- ===== src/Security.antt =====
-- common/Security.h and common/Security.cpp. QCA is not part of the repository: its keys, its cipher,
-- its random source and its key files are the parameter `Qca`. A `QString` is the
-- bytes of its characters, which are ASCII in a PEM text.
pub mod Keys
pub mod Aes
pub mod Files
pub mod Calls
use sepm_group.Prelude.{
  ℕ, ◌/◌, Bool, true, false, ◌&&◌, not, Option, none, some, [], ◌∷◌, ◌++◌, Text, codes, length,
  take, drop, ◌==◌,
}
use sepm_group.Prelude.Effects.{Eff, Result, ok, err, ◌>>=◌, ◌>>◌, pure, throw}
use sepm_group.SdcHelper.{
  Fault, size_overflow, index_out_of_range, ByteSeq, b_string_to_byte_seq, byte_seq_to_byte_array,
  byte_array_to_byte_seq, get_binary_string,
}
use sepm_group.Sdc.{Exception, security_exception, out_of_range, undefined}
use sepm_group.Qca.{Qca, Direction, encode, decode, eme_pkcs1_oaep, emsa3_sha1}

-- The members; `cipher` is set exactly if `m_aes` is.
pub record Security : Type 0 where
  pub m_rsa : Bool
  pub m_aes : Bool

module _ (Q : Qca) where
  abbrev pub Call : Type 0 → Type 0
  Call A = Eff Q.State Exception A

  -- `if(test) throw SecurityException(what)`
  abbrev pub throw_if : Bool → Text → Call (Unit {0})
  throw_if true what = throw (security_exception what)
  throw_if false what = pure tt

  -- A conversion of sdcHelper, which may be undefined.
  abbrev pub defined : {A : Type 0} → Option A → Call A
  defined none = throw undefined
  defined (some a) = pure a

  abbrev pub copied : Result Fault Text → Call Text
  copied (ok arr) = pure arr
  copied (err size_overflow) = throw undefined
  copied (err index_out_of_range) = throw out_of_range

  abbrev pub to_array : ByteSeq → Call Text
  to_array bytes = copied (byte_seq_to_byte_array Q.junk bytes)

  abbrev pub to_seq : Text → Call ByteSeq
  to_seq arr = defined (byte_array_to_byte_seq arr)

  -- The constructor.
  unfoldable pub security : Security
  security = record { m_rsa = Q.supports_pkey && Q.supports_rsa_io; m_aes = Q.supports_aes256_ofb }

  module _ (self : Security) where
    unfoldable pub supports_rsa : Bool
    supports_rsa = self.m_rsa

    unfoldable pub supports_aes : Bool
    supports_aes = self.m_aes

    abbrev crypt : Direction → Text → Text → Call Text
    crypt encode symkey bytes = do
      iv ← Q.initialization_vector (length symkey)
      pure (iv ++ Q.process encode symkey iv bytes)
    crypt decode symkey bytes =
        pure (Q.process decode symkey (take (length symkey) bytes) (drop (length symkey) bytes))

    unfoldable pub process_aes : ByteSeq → ByteSeq → Direction → Call ByteSeq
    process_aes key bytes dir = do
      throw_if (not self.m_aes) (codes "AES not supported")
      symkey ← to_array key
      throw_if (length symkey == 0) (codes "empty key supplied")
      arr ← to_array bytes
      outdata ← crypt dir symkey arr
      to_seq outdata

    unfoldable pub encrypt_aes : ByteSeq → ByteSeq → Call ByteSeq
    encrypt_aes key bytes = process_aes key bytes encode

    unfoldable pub decrypt_aes : ByteSeq → ByteSeq → Call ByteSeq
    decrypt_aes key bytes = process_aes key bytes decode

    unfoldable pub gen_aes_key : ℕ → Call ByteSeq
    gen_aes_key size = do
      throw_if (not self.m_aes) (codes "AES not supported")
      key ← Q.symmetric_key size
      to_seq key

    unfoldable pub encrypt_rsa : Q.PublicKey → ByteSeq → Call ByteSeq
    encrypt_rsa key bytes = do
      throw_if (not (self.m_rsa && self.m_aes)) (codes "RSA not supported")
      throw_if (not (Q.can_encrypt key)) (codes "supplied key can not encrypt")
      symkey ← gen_aes_key (Q.maximum_encrypt_size key eme_pkcs1_oaep)
      encdata ← encrypt_aes symkey bytes
      secdata ← to_array symkey
      outdata ← Q.encrypt key secdata eme_pkcs1_oaep
      rest ← to_array encdata
      defined (b_string_to_byte_seq (outdata ++ rest) (length (outdata ++ rest)))

    -- `key.decrypt(secdata, &symkey, …) == false`
    abbrev or_failed : Option Text → Call Text
    or_failed none = throw (security_exception (codes "decryption failed"))
    or_failed (some symkey) = pure symkey

    unfoldable pub decrypt_rsa : Q.PrivateKey → ByteSeq → Call ByteSeq
    decrypt_rsa key bytes = do
      throw_if (not (self.m_rsa && self.m_aes)) (codes "RSA not supported")
      throw_if (not (Q.can_decrypt key)) (codes "supplied key can not decrypt")
      encdata ← to_array bytes
      symkey ← or_failed (Q.decrypt key (take (Q.bit_size key / 8) encdata) eme_pkcs1_oaep)
      k ← to_seq symkey
      d ← to_seq (drop (Q.bit_size key / 8) encdata)
      decrypt_aes k d

    unfoldable pub sign_rsa : Q.PrivateKey → ByteSeq → Call ByteSeq
    sign_rsa key bytes = do
      throw_if (not self.m_rsa) (codes "RSA not supported")
      throw_if (not (Q.can_sign key)) (codes "supplied key can not sign")
      secdata ← to_array bytes
      signature ← Q.sign_message key secdata emsa3_sha1
      defined (b_string_to_byte_seq signature (length signature))

    unfoldable pub verify_rsa : Q.PublicKey → ByteSeq → ByteSeq → Call Bool
    verify_rsa key bytes signature = do
      throw_if (not self.m_rsa) (codes "RSA not supported")
      throw_if (not (Q.can_verify key)) (codes "supplied key can not verify")
      secdata ← to_array bytes
      qsignature ← to_array signature
      pure (Q.verify_message key secdata qsignature emsa3_sha1)

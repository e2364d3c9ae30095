-- ===== src/Security/Aes.antt =====
-- AES: what is refused, and the size of a generated key.
use Prim.Native.String.{String}
use sepm_group.Prelude.{ℕ, ◌≤◌, ◌≡◌, true, false, [], codes, length, arith}
use sepm_group.Prelude.Effects.{ok, err, Result}
use sepm_group.SdcHelper.{ByteSeq, int_max}
use sepm_group.SdcHelper.Bytes.{byte_seq_to_byte_array-eq, byte_array_to_byte_seq-eq}
use sepm_group.Sdc.{Exception, security_exception}
use sepm_group.Qca.{Qca, DrawsKeys}
use sepm_group.Security.{Security, process_aes, encrypt_aes, decrypt_aes, gen_aes_key}

module _ (Q : Qca) (self : Security) where
  abbrev pub Refuses : String → {A : Type 0} → Result Exception A × Q.State → Q.State → Type 0
  Refuses what out s = out ≡ (err (security_exception (codes what)), s)

  -- Without the cipher nothing is encrypted, decrypted or generated.
  pub aes_unsupported :
      (key bytes : ByteSeq) (size : ℕ) (s : Q.State)
      → self.m_aes ≡ false
      → Refuses "AES not supported" (encrypt_aes Q self key bytes s) s
        × Refuses "AES not supported" (decrypt_aes Q self key bytes s) s
        × Refuses "AES not supported" (gen_aes_key Q self size s) s
  unfolding encrypt_aes decrypt_aes process_aes gen_aes_key
  aes_unsupported key bytes size s e = (rw e, rw e, rw e)

  -- No empty key is used.
  pub aes_empty_key :
      (bytes : ByteSeq) (s : Q.State)
      → self.m_aes ≡ true
      → Refuses "empty key supplied" (encrypt_aes Q self [] bytes s) s
        × Refuses "empty key supplied" (decrypt_aes Q self [] bytes s) s
  unfolding encrypt_aes decrypt_aes process_aes
  aes_empty_key bytes s e =
      let copied = byte_seq_to_byte_array-eq Q.junk [] (omega arith) in
      (rw (e, copied), rw (e, copied))

module _ (Q : Qca) (C : DrawsKeys Q) (self : Security) (aes : self.m_aes ≡ true) where
  -- A generated key has the size that was asked for.
  pub gen_aes_key-length :
      (size : ℕ) (s : Q.State)
      → size ≤ int_max
      → (key : ByteSeq) × ((gen_aes_key Q self size s).0 ≡ ok key) × (length key ≡ size)
  unfolding gen_aes_key
  gen_aes_key-length size s h =
      let (key, e, l) = C.key_size size s in
      (key, rw (aes, e) (rw (byte_array_to_byte_seq-eq key (omega (arith, l)))), l)

-- ===== src/Security/Calls/Refusals.antt =====
-- What the support of QCA decides alone: the refusals of an object without RSA or AES.
use sepm_group.Prelude.{
  ◌≡◌, ap, Bool, true, false, not, ◌&&◌, Option, none, some, Text, codes, arith,
}
use sepm_group.Prelude.Effects.{Result, err, bind_result}
use sepm_group.Sdc.{Exception, security_exception}
use sepm_group.Qca.{Qca}
use sepm_group.Security.{
  Security, Call, throw_if, encrypt_rsa, decrypt_rsa, sign_rsa, verify_rsa, process_aes,
  encrypt_aes, decrypt_aes, gen_aes_key,
}
use sepm_group.Security.Keys.{
  encrypt_rsa_file, encrypt_rsa_pem, decrypt_rsa_file, decrypt_rsa_passphrase, decrypt_rsa_pem,
  sign_rsa_file, sign_rsa_passphrase, sign_rsa_pem, verify_rsa_file, verify_rsa_pem, gen_rsa_key,
  save_priv_key, save_pub_key, read_priv_key, read_pub_key,
}
use sepm_group.Security.Calls.{
  AnyCall, rsa_method, signature_method, aes_method, key_method, protected_method, RsaCall,
  SignatureCall, AesCall, KeyCall, ProtectedCall, call, rsa_call, signature_call, aes_call,
  key_call, protected_call, encrypts_file, encrypts_pem, decrypts_file, decrypts_passphrase,
  decrypts_pem, signs_file, signs_passphrase, signs_pem, verifies_file, verifies_pem, encrypts_aes,
  decrypts_aes, gens_rsa_key, saves_priv_key, saves_pub_key, reads_priv_key, reads_pub_key,
  gens_aes_key, encrypts_key, decrypts_key, signs_key, verifies_key, processes_aes,
}

abbrev pub unless : Bool → Text → Option Text
unless true what = none
unless false what = some what

-- The refusal of a method, by the support: hybrid encryption needs both, a signature and an
-- operation on RSA keys needs RSA, and the cipher and its keys need AES.
module _ (self : Security) where
  abbrev hybrid : Option Text
  hybrid = unless (self.m_rsa && self.m_aes) (codes "RSA not supported")

  abbrev signing : Option Text
  signing = unless self.m_rsa (codes "RSA not supported")

  abbrev cipher : Option Text
  cipher = unless self.m_aes (codes "AES not supported")

  abbrev pub key_refusal : KeyCall → Option Text
  key_refusal (gens_aes_key size) = cipher
  key_refusal _ = signing

  abbrev pub protected_refusal : (Q : Qca) → ProtectedCall Q → Option Text
  protected_refusal Q (encrypts_key k b) = hybrid
  protected_refusal Q (decrypts_key k b) = hybrid
  protected_refusal Q (processes_aes k b dir) = cipher
  protected_refusal Q _ = signing

  abbrev pub refusal : (Q : Qca) → AnyCall Q → Option Text
  refusal Q (rsa_method c) = hybrid
  refusal Q (signature_method c) = signing
  refusal Q (aes_method c) = cipher
  refusal Q (key_method c) = key_refusal c
  refusal Q (protected_method c) = protected_refusal Q c

module _ (Q : Qca) (self : Security) (s : Q.State) (w : Text) where
  -- Nothing has happened but the exception.
  abbrev pub Refused : {A : Type 0} → Result Exception A × Q.State → Type 0
  Refused out = out ≡ (err (security_exception w), s)

  guarded :
      {A : Type 0} (b : Bool) (what : Text) (rest : Unit {0} → Call Q A)
      → unless b what ≡ some w
      → Refused (bind_result (throw_if Q (not b) what s) rest)
  guarded true what rest h = absurd (ground (arith, h))
  guarded false what rest h = ground (arith, h)

  after :
      {A B : Type 0} (f : A → Call Q B) {r : Result Exception A × Q.State}
      → Refused r
      → Refused (bind_result r f)
  after f h = ap (λ r. bind_result r f) h

  rsa_call-Refused : (c : RsaCall) → hybrid self ≡ some w → Refused (rsa_call Q self c s)
  unfolding rsa_call encrypt_rsa_file encrypt_rsa_pem decrypt_rsa_file decrypt_rsa_passphrase
      decrypt_rsa_pem encrypt_rsa decrypt_rsa
  rsa_call-Refused (encrypts_file file b) h = after _ (guarded _ _ _ h)
  rsa_call-Refused (encrypts_pem pem b) h = after _ (guarded _ _ _ h)
  rsa_call-Refused (decrypts_file file b) h = after _ (guarded _ _ _ h)
  rsa_call-Refused (decrypts_passphrase file pw b) h = after _ (guarded _ _ _ h)
  rsa_call-Refused (decrypts_pem pem b) h = after _ (guarded _ _ _ h)

  signature_call-Refused :
      (c : SignatureCall) → signing self ≡ some w → Refused (signature_call Q self c s)
  unfolding signature_call sign_rsa_file sign_rsa_passphrase sign_rsa_pem verify_rsa_file
      verify_rsa_pem sign_rsa verify_rsa
  signature_call-Refused (signs_file file b) h = after _ (guarded _ _ _ h)
  signature_call-Refused (signs_passphrase file pw b) h = after _ (guarded _ _ _ h)
  signature_call-Refused (signs_pem pem b) h = after _ (guarded _ _ _ h)
  signature_call-Refused (verifies_file file b sig) h = after _ (guarded _ _ _ h)
  signature_call-Refused (verifies_pem pem b sig) h = after _ (guarded _ _ _ h)

  aes_call-Refused : (c : AesCall) → cipher self ≡ some w → Refused (aes_call Q self c s)
  unfolding aes_call encrypt_aes decrypt_aes process_aes
  aes_call-Refused (encrypts_aes k b) h = after _ (guarded _ _ _ h)
  aes_call-Refused (decrypts_aes k b) h = after _ (guarded _ _ _ h)

  key_call-Refused : (c : KeyCall) → key_refusal self c ≡ some w → Refused (key_call Q self c s)
  unfolding key_call gen_rsa_key save_priv_key save_pub_key read_priv_key read_pub_key gen_aes_key
  key_call-Refused (gens_rsa_key bits) h = after _ (guarded _ _ _ h)
  key_call-Refused (saves_priv_key pem file pw) h = after _ (guarded _ _ _ h)
  key_call-Refused (saves_pub_key pem file) h = after _ (guarded _ _ _ h)
  key_call-Refused (reads_priv_key file pw) h = after _ (guarded _ _ _ h)
  key_call-Refused (reads_pub_key file) h = after _ (guarded _ _ _ h)
  key_call-Refused (gens_aes_key size) h = after _ (guarded _ _ _ h)

  protected_call-Refused :
      (c : ProtectedCall Q)
      → protected_refusal self Q c ≡ some w
      → Refused (protected_call Q self c s)
  unfolding protected_call encrypt_rsa decrypt_rsa sign_rsa verify_rsa process_aes
  protected_call-Refused (encrypts_key k b) h = after _ (guarded _ _ _ h)
  protected_call-Refused (decrypts_key k b) h = after _ (guarded _ _ _ h)
  protected_call-Refused (signs_key k b) h = after _ (guarded _ _ _ h)
  protected_call-Refused (verifies_key k b sig) h = after _ (guarded _ _ _ h)
  protected_call-Refused (processes_aes k b dir) h = after _ (guarded _ _ _ h)

  -- A method that the support of QCA does not allow throws a SecurityException with the text of its
  -- test, and leaves the random source and the key files as they were; what an overload has read
  -- from a key file before the test does not matter.
  pub call-Refused : (c : AnyCall Q) → refusal self Q c ≡ some w → Refused (call Q self c s)
  unfolding call
  call-Refused (rsa_method c) h = rsa_call-Refused c h
  call-Refused (signature_method c) h = signature_call-Refused c h
  call-Refused (aes_method c) h = aes_call-Refused c h
  call-Refused (key_method c) h = key_call-Refused c h
  call-Refused (protected_method c) h = protected_call-Refused c h

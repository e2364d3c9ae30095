-- ===== src/Security/Files.antt =====
-- Keys as PEM texts and in files.
use sepm_group.Prelude.{
  ◌≤◌, ◌≡◌, ◌≢◌, refl, sym, ap, ◌∙◌, Bool, true, false, some, [], ◌∷◌, ◌++◌, Text, codes, ==_iff,
  not, length, take-append, length-append, arith,
}
use sepm_group.Prelude.Effects.{ok}
use sepm_group.SdcHelper.{int_max, b_string_to_byte_seq}
use sepm_group.SdcHelper.Bytes.{b_string_to_byte_seq-take, get_binary_string-eq}
use sepm_group.Qca.{Qca, convert_good}
use sepm_group.Security.{Security, throw_if}
use sepm_group.Security.Keys.{c_string, save_priv_key, read_priv_key}

-- No byte is zero, as in a PEM text.
abbrev pub NoZero : Text → Type 0
NoZero [] = Unit {0}
NoZero (c ∷ s) = (c ≢ 0) × NoZero s

c_string-eq : (s : Text) → NoZero s → c_string s ≡ s
unfolding c_string
c_string-eq [] h = refl
c_string-eq (c ∷ s) h = ground (arith, ==_iff c 0, c_string-eq s h.1)

-- PEM texts and key files give the keys back that they were made from.
pub record PemIsLawful (Q : Qca) : Type 0 where
  pub public_pem : (k : Q.PublicKey) → Q.public_from_pem (Q.public_to_pem k) ≡ (convert_good, k)
  pub private_pem : (k : Q.PrivateKey) → Q.private_from_pem (Q.private_to_pem k) ≡ (convert_good, k)
  pub public_pem-NoZero : (k : Q.PublicKey) → NoZero (Q.public_to_pem k)
  pub private_pem-NoZero : (k : Q.PrivateKey) → NoZero (Q.private_to_pem k)
  pub private_file :
      (k : Q.PrivateKey) (file passphrase : Text) (s : Q.State)
      → (Q.private_to_pem_file k file passphrase s).0 ≡ true
      → Q.private_from_pem_file file passphrase (Q.private_to_pem_file k file passphrase s).1
        ≡ (convert_good, k)
  pub public_file :
      (k : Q.PublicKey) (file : Text) (s : Q.State)
      → (Q.public_to_pem_file k file s).0 ≡ true
      → Q.public_from_pem_file file (Q.public_to_pem_file k file s).1 ≡ (convert_good, k)

module _ (Q : Qca) (M : PemIsLawful Q) (self : Security) (rsa : self.m_rsa ≡ true) where
  terminated :
      (pem : Text)
      → length pem ≤ int_max
      → b_string_to_byte_seq (pem ++ (0 ∷ [])) (length pem) ≡ some pem
  terminated pem h =
      b_string_to_byte_seq-take _ _ (omega (arith, length-append pem (0 ∷ []))) h
      ∙ ap some (take-append pem (0 ∷ []))

  module _ (key : Q.PrivateKey) (file passphrase : Text) (s : Q.State) where
    abbrev written : Bool × Q.State
    written = Q.private_to_pem_file key file (c_string passphrase) s

    save_priv_key-eq :
        save_priv_key Q self (Q.private_to_pem key) file passphrase s
        ≡ throw_if Q (not written.0) (codes "failed to save key") written.1
    unfolding save_priv_key
    save_priv_key-eq =
        rw
          (
            get_binary_string-eq (Q.private_to_pem key),
            c_string-eq (Q.private_to_pem key) (M.private_pem-NoZero key),
            M.private_pem key,
          )
          (simp (rsa) refl)

    read_priv_key-eq :
        (t : Q.State)
        → Q.private_from_pem_file file (c_string passphrase) t ≡ (convert_good, key)
        → length (Q.private_to_pem key) ≤ int_max
        → (read_priv_key Q self file passphrase t).0 ≡ ok (Q.private_to_pem key)
    unfolding read_priv_key
    read_priv_key-eq t e h = simp (rsa, e, terminated (Q.private_to_pem key) h) refl

    was_written :
        (b : Bool) (t : Q.State)
        → (throw_if Q (not b) (codes "failed to save key") t).0 ≡ ok tt
        → b ≡ true
    was_written true t e = refl
    was_written false t e = cc

    state_after :
        (b : Bool) (t : Q.State) → (throw_if Q (not b) (codes "failed to save key") t).1 ≡ t
    state_after true t = refl
    state_after false t = refl

    -- A private key that was saved under a passphrase is read back with it.
    pub save_priv_key-read_priv_key :
        length (Q.private_to_pem key) ≤ int_max
        → (save_priv_key Q self (Q.private_to_pem key) file passphrase s).0 ≡ ok tt
        → (read_priv_key Q self file passphrase
            (save_priv_key Q self (Q.private_to_pem key) file passphrase s).1).0
          ≡ ok (Q.private_to_pem key)
    save_priv_key-read_priv_key h e =
        rw (save_priv_key-eq, state_after written.0 written.1)
          (read_priv_key-eq written.1
            (M.private_file key file (c_string passphrase) s
              (was_written written.0 written.1 (sym (ap (λ o. o.0) save_priv_key-eq) ∙ e)))
            h)

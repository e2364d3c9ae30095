-- ===== src/Tests/Cipher.antt =====
-- A toy QCA: keys are numbers, a block is three bytes, the cipher adds one to every byte.
use sepm_group.Prelude.{
  ℕ, zero, suc, ◌≡◌, refl, ap, true, Option, some, none, List, [], ◌∷◌, Text, length, same,
  same_refl, if◌then◌else◌, arith,
}
use sepm_group.Prelude.Effects.{ok}
use sepm_group.Qca.{
  Qca, Direction, encode, decode, ConvertResult, convert_good, error_decode, error_file,
  error_passphrase, DrawsKeys,
}
use sepm_group.Security.Files.{PemIsLawful}

abbrev zeros : ℕ → Text
zeros zero = []
zeros (suc n) = 0 ∷ zeros n

length-zeros : (n : ℕ) → length (zeros n) ≡ n
length-zeros zero = refl
length-zeros (suc n) = ap suc (length-zeros n)

abbrev toy_process : Direction → Text → Text
toy_process _ [] = []
toy_process encode (x ∷ xs) = suc x ∷ toy_process encode xs
toy_process decode (zero ∷ xs) = zero ∷ toy_process decode xs
toy_process decode (suc x ∷ xs) = x ∷ toy_process decode xs

abbrev seal : Text → Text
seal [] = 0 ∷ 0 ∷ 0 ∷ []
seal (a ∷ []) = 1 ∷ a ∷ 0 ∷ []
seal (a ∷ b ∷ _) = 2 ∷ a ∷ b ∷ []

abbrev unseal : Text → Option Text
unseal (zero ∷ _ ∷ _ ∷ []) = some []
unseal (suc zero ∷ a ∷ _ ∷ []) = some (a ∷ [])
unseal (suc (suc zero) ∷ a ∷ b ∷ []) = some (a ∷ b ∷ [])
unseal _ = none

abbrev toy_from_pem : Text → ConvertResult × ℕ
toy_from_pem (suc k ∷ []) = (convert_good, k)
toy_from_pem _ = (error_decode, 0)

-- A key file: its name, its passphrase and its key.
abbrev KeyFile : Type 0
KeyFile = Text × Text × ℕ

abbrev find_key : Text → Text → List KeyFile → ConvertResult × ℕ
find_key file passphrase [] = (error_file, 0)
find_key file passphrase ((file', passphrase', k) ∷ files) =
    let rest = find_key file passphrase files in
    if same file file'
    then (if same passphrase passphrase' then (convert_good, k) else (error_passphrase, 0))
    else rest

abbrev pub toy : Qca
toy = record {
  State = List KeyFile;
  PublicKey = ℕ;
  PrivateKey = ℕ;
  junk = λ i. i;
  supports_pkey = true;
  supports_rsa_io = true;
  supports_aes256_ofb = true;
  symmetric_key = λ n s. (ok (zeros n), s);
  initialization_vector = λ n s. (ok (zeros n), s);
  process = λ dir _ _ bytes. toy_process dir bytes;
  can_encrypt = λ _. true;
  can_verify = λ _. true;
  maximum_encrypt_size = λ _ _. 2;
  encrypt = λ _ bytes _ s. (ok (seal bytes), s);
  verify_message = λ k bytes signature _. same signature (k ∷ length bytes ∷ 1 ∷ []);
  can_decrypt = λ _. true;
  can_sign = λ _. true;
  bit_size = λ _. 24;
  decrypt = λ _ block _. unseal block;
  sign_message = λ k bytes _ s. (ok (k ∷ length bytes ∷ 1 ∷ []), s);
  to_public_key = λ k. k;
  create_rsa = λ bits s. (ok bits, s);
  public_to_pem = λ k. suc k ∷ [];
  private_to_pem = λ k. suc k ∷ [];
  public_from_pem = toy_from_pem;
  private_from_pem = toy_from_pem;
  public_from_pem_file = λ file s. find_key file [] s;
  private_from_pem_file = find_key;
  public_to_pem_file = λ k file s. (true, (file, [], k) ∷ s);
  private_to_pem_file = λ k file passphrase s. (true, (file, passphrase, k) ∷ s);
}

pub toy-DrawsKeys : DrawsKeys toy
toy-DrawsKeys = record { key_size = λ n s. (zeros n, refl, length-zeros n) }

find_key_first :
    (k : ℕ) (file passphrase : Text) (s : List KeyFile)
    → find_key file passphrase ((file, passphrase, k) ∷ s) ≡ (convert_good, k)
find_key_first k file passphrase s = rw (same_refl file, same_refl passphrase)

pub toy-PemIsLawful : PemIsLawful toy
toy-PemIsLawful = record {
  public_pem = λ k. refl;
  private_pem = λ k. refl;
  public_pem-NoZero = λ k. (omega arith, tt);
  private_pem-NoZero = λ k. (omega arith, tt);
  private_file = λ k file passphrase s _. find_key_first k file passphrase s;
  public_file = λ k file s _. find_key_first k file [] s;
}

-- ===== src/Tests/Crypto.antt =====
-- common/Security.cpp over the toy QCA.
use sepm_group.Prelude.{◌≡◌, refl, true, false, [], ◌∷◌, Text, codes, length, arith}
use sepm_group.Prelude.Effects.{ok}
use sepm_group.SdcHelper.Bytes.{get_binary_string-eq}
use sepm_group.Security.{Security, security, encrypt_aes, decrypt_aes, gen_aes_key}
use sepm_group.Security.Keys.{c_string, save_priv_key, read_priv_key}
use sepm_group.Security.Aes.{Refuses, aes_unsupported, aes_empty_key, gen_aes_key-length}
use sepm_group.Security.Files.{save_priv_key-read_priv_key}
use sepm_group.Security.Calls.{call, rsa_method, encrypts_file}
use sepm_group.Security.Calls.Refusals.{Refused, call-Refused}
use sepm_group.Tests.Cipher.{toy, toy-DrawsKeys, toy-PemIsLawful}

abbrev sec : Security
sec = record { m_rsa = true; m_aes = true }

abbrev no_aes : Security
no_aes = record { m_rsa = true; m_aes = false }

made : security toy ≡ sec
unfolding security
made = refl

abbrev plain : Text
plain = codes "some data"

aes_unsupported_test :
    Refuses toy no_aes "AES not supported" (encrypt_aes toy no_aes [] plain []) []
    × Refuses toy no_aes "AES not supported" (decrypt_aes toy no_aes [] plain []) []
    × Refuses toy no_aes "AES not supported" (gen_aes_key toy no_aes 4 []) []
aes_unsupported_test = aes_unsupported toy no_aes [] plain 4 [] refl

aes_empty_key_test :
    Refuses toy sec "empty key supplied" (encrypt_aes toy sec [] plain []) []
    × Refuses toy sec "empty key supplied" (decrypt_aes toy sec [] plain []) []
aes_empty_key_test = aes_empty_key toy sec plain [] refl

gen_aes_key-length_example :
    (key : Text) × ((gen_aes_key toy sec 4 []).0 ≡ ok key) × (length key ≡ 4)
gen_aes_key-length_example = gen_aes_key-length toy toy-DrawsKeys sec refl 4 [] (omega arith)

saved : (save_priv_key toy sec (9 ∷ []) (codes "id.pem") (codes "pass") []).0 ≡ ok tt
unfolding save_priv_key c_string
saved = rw (get_binary_string-eq (9 ∷ [])) refl

save_priv_key-read_priv_key_example :
    (read_priv_key toy sec
      (codes "id.pem")
      (codes "pass")
      (save_priv_key toy sec (9 ∷ []) (codes "id.pem") (codes "pass") []).1).0
    ≡ ok (9 ∷ [])
save_priv_key-read_priv_key_example =
    save_priv_key-read_priv_key toy toy-PemIsLawful sec refl 8 (codes "id.pem") (codes "pass") []
      (omega arith) saved

call-Refused_example :
    Refused toy no_aes []
      (codes "RSA not supported")
      (call toy no_aes (rsa_method (encrypts_file plain plain)) [])
call-Refused_example =
    call-Refused toy no_aes [] (codes "RSA not supported") (rsa_method (encrypts_file plain plain))
      refl

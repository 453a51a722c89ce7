-- ===== src/Tests/Signing.antt =====
-- The signer at concrete inputs, over a stand-in for OpenSSL: a key is a number, 1 is an RSA key, a
-- signature is the message, and base64 writes letters.
use executor_hotpath_cpp.Base.{
  ℕ, ◌+◌, ◌*◌, ◌/◌, ◌≡◌, refl, true, [], ◌∷◌, ◌++◌, Bytes, codes, some, length, ◌==◌,
}
use executor_hotpath_cpp.Base.Int.{pos}
use executor_hotpath_cpp.Signer.{
  Openssl, RequestSigner, SignAnswers, sign, sign_message, base64, set_parameters,
}
use executor_hotpath_cpp.Signer.Loading.{LoadAnswers, load, IsFreed, Loads, load_lem}
use executor_hotpath_cpp.Signer.Signed.{IsOver, sign-IsOver}
use executor_hotpath_cpp.SpscRing.{replicate}

abbrev letters : Bytes → Bytes
letters bytes = replicate (4 * ((length bytes + 2) / 3)) b'A'

abbrev pub stand_in : Openssl ℕ
stand_in = record {
  is_rsa = λ k. k == 1;
  sign = λ settings k message salt. some message;
  encode_block = λ bytes. (pos (length (letters bytes)), letters bytes ++ 0 ∷ []);
}

-- A signer with a key, and what earlier calls have left.
abbrev pub signer : RequestSigner ℕ
signer = record {
  private_key_path = codes "key.pem";
  key = some 1;
  message = codes "old";
  signature = 7 ∷ 7 ∷ [];
  handles = record { bios = 0; keys = 1; contexts = 1 };
}

abbrev pub all_well : SignAnswers
all_well = record {
  init = true;
  set_padding = true;
  set_salt_length = true;
  set_mgf1 = true;
  sizing = some 1;
  salt = 3;
  errors = [];
}

sign-IsOver_example :
    (k : ℕ) × (signer.key ≡ some k)
    × IsOver stand_in all_well k ((codes "1" ++ codes "GET") ++ codes "/x") (codes "AAAAAAAA")
unfolding sign sign_message base64 set_parameters
sign-IsOver_example =
    sign-IsOver stand_in all_well (codes "1") (codes "GET") (codes "/x") signer
      {text = codes "AAAAAAAA"} refl

-- The file holds a key that is not an RSA key.
abbrev other_key : LoadAnswers ℕ
other_key = record { opens = true; read = some 2; has_context = true; errors = [] }

load_lem_example :
    IsFreed stand_in (load stand_in other_key signer).1
    × Loads stand_in other_key signer (load stand_in other_key signer)
load_lem_example =
    load_lem stand_in other_key signer (record { no_bio = refl; keys = refl; contexts = refl })

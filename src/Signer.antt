-- ===== src/Signer.antt =====
-- `RequestSigner` of src/signer.cpp. OpenSSL is a parameter: what a key is, how it signs, and what its
-- calls answer, with the texts of its error queue.
pub mod Loading
pub mod Signed
use executor_hotpath_cpp.Base.{
  ℕ, zero, suc, ◌+◌, ◌-◌, ◌*◌, ◌/◌, Bool, true, false, not, List, [], ◌∷◌, ◌++◌, Option, none, some,
  Bytes, codes, if◌then◌else◌, length, ltb,
}
use executor_hotpath_cpp.Base.Cuts.{take, drop}
use executor_hotpath_cpp.Base.Int.{ℤ, pos, negsuc}
use executor_hotpath_cpp.SpscRing.{replicate}

-- What a signing operation is set to: the padding, the length of the salt, and the two digests.
pub data Padding : Type 0 where
  pkcs1 pss : Padding

pub data SaltLength : Type 0 where
  widest digest_width : SaltLength

pub data Digest : Type 0 where
  sha256 : Digest

pub record SignSettings : Type 0 where
  pub digest : Digest
  pub padding : Padding
  pub salt_length : SaltLength
  pub mgf1 : Option Digest

-- `sign` is `EVP_DigestSign` on a message, with the salt that it draws; `none` where it fails.
-- `encode_block` is `EVP_EncodeBlock`: what it returns, and all the bytes that it writes.
pub record Openssl (K : Type 0) : Type 0 where
  pub is_rsa : K → Bool
  pub sign : SignSettings → K → Bytes → ℕ → Option Bytes
  pub encode_block : Bytes → ℤ × Bytes

-- The loop of `openssl_error` over the queue.
unfoldable pub join_errors : Bytes → List Bytes → Bytes
join_errors message [] = message
join_errors [] (text ∷ errors) = join_errors text errors
join_errors (c ∷ message) (text ∷ errors) = join_errors ((c ∷ message) ++ codes "; " ++ text) errors

abbrev or_no_error : Bytes → Bytes
or_no_error [] = codes "no OpenSSL error recorded"
or_no_error (c ∷ message) = c ∷ message

-- `openssl_error`
abbrev pub openssl_error : List Bytes → Bytes
openssl_error errors = or_no_error (join_errors [] errors)

-- A result of the signer: a text, an exception with its text, or a write past the end of a buffer.
pub data Signing : Type 0 where
  signed logic_error runtime_error : Bytes → Signing
  overrun : Signing

abbrev pub buffer_size : ℕ → ℕ
buffer_size n = 4 * ((n + 2) / 3) + 1

abbrev encoded : List Bytes → ℤ × Bytes → ℕ → Signing
encoded errors (negsuc _, _) size =
    runtime_error (codes "EVP_EncodeBlock: " ++ openssl_error errors)
encoded errors (pos written, text) size =
    if ltb size (length text)
    then overrun
    else signed (take written (text ++ replicate (size - length text) 0))

module _ {K : Type 0} (ssl : Openssl K) where
  -- `base64`
  unfoldable pub base64 : List Bytes → Bytes → Signing
  base64 errors bytes = encoded errors (ssl.encode_block bytes) (buffer_size (length bytes))

-- `resize` of a byte buffer, which fills up with zeros.
abbrev pub resize : ℕ → Bytes → Bytes
resize n bytes = take n (bytes ++ replicate (n - length bytes) 0)

-- How many objects of OpenSSL there are that have not been freed.
pub record Handles : Type 0 where
  pub bios : ℕ
  pub keys : ℕ
  pub contexts : ℕ

pub record RequestSigner (K : Type 0) : Type 0 where
  pub private_key_path : Bytes
  pub key : Option K
  pub message : Bytes
  pub signature : Bytes
  pub handles : Handles

-- What the calls of `sign_message` answer: whether each of the first four succeeds, the length that
-- the sizing call gives, and the salt that is drawn.
pub record SignAnswers : Type 0 where
  pub init : Bool
  pub set_padding : Bool
  pub set_salt_length : Bool
  pub set_mgf1 : Bool
  pub sizing : Option ℕ
  pub salt : ℕ
  pub errors : List Bytes

-- The settings behind `EVP_DigestSignInit`.
abbrev pub initial_settings : SignSettings
initial_settings = record { digest = sha256; padding = pkcs1; salt_length = widest; mgf1 = none }

-- The three calls, up to the first that fails.
unfoldable pub set_parameters : SignAnswers → SignSettings → Option SignSettings
set_parameters a settings =
    if not a.set_padding
    then none
    else if not a.set_salt_length
    then none
    else if not a.set_mgf1
    then none
    else some (record settings { padding = pss; salt_length = digest_width; mgf1 = some sha256 })

abbrev pub web_socket_auth_method : Bytes
web_socket_auth_method = codes "GET"

abbrev pub web_socket_auth_path : Bytes
web_socket_auth_path = codes "/trade-api/ws/v2"

module _ {K : Type 0} (ssl : Openssl K) where
  abbrev failed : SignAnswers → Bytes → RequestSigner K → Signing × RequestSigner K
  failed a name s = (runtime_error (name ++ openssl_error a.errors), s)

  -- Behind the second call of `EVP_DigestSign`.
  abbrev pub finish_sign : SignAnswers → Option Bytes → RequestSigner K → Signing × RequestSigner K
  finish_sign a none s = failed a (codes "EVP_DigestSign: ") s
  finish_sign a (some written) s =
      let signature = resize (length written) (written ++ drop (length written) s.signature) in
      (base64 ssl a.errors signature, record s { signature = signature })

  abbrev pub size_and_sign :
      SignAnswers
      → Option ℕ
      → SignSettings
      → K
      → Bytes
      → RequestSigner K
      → Signing × RequestSigner K
  size_and_sign a none settings k message s = failed a (codes "EVP_DigestSign sizing: ") s
  size_and_sign a (some size) settings k message s =
      finish_sign a (ssl.sign settings k message a.salt)
        (record s { signature = resize size s.signature })

  abbrev pub with_settings :
      SignAnswers → Option SignSettings → K → Bytes → RequestSigner K → Signing × RequestSigner K
  with_settings a none k message s = failed a (codes "PSS parameters: ") s
  with_settings a (some settings) k message s = size_and_sign a a.sizing settings k message s

  abbrev pub sign_with :
      SignAnswers → Option K → Bytes → RequestSigner K → Signing × RequestSigner K
  sign_with a none message s =
      (logic_error (codes "RequestSigner::sign before a successful load()"), s)
  sign_with a (some k) message s =
      if not a.init
      then failed a (codes "EVP_DigestSignInit: ") s
      else with_settings a (set_parameters a initial_settings) k message s

  -- `sign_message`
  unfoldable pub sign_message : SignAnswers → Bytes → RequestSigner K → Signing × RequestSigner K
  unfolding base64 set_parameters
  sign_message a message s = sign_with a s.key message s

  -- `sign`
  unfoldable pub sign :
      SignAnswers → Bytes → Bytes → Bytes → RequestSigner K → Signing × RequestSigner K
  unfolding sign_message
  sign a timestamp method path s =
      let message = (timestamp ++ method) ++ path in
      sign_message a message (record s { message = message })

  -- `sign_websocket_auth`
  unfoldable pub sign_websocket_auth :
      SignAnswers → Bytes → RequestSigner K → Signing × RequestSigner K
  unfolding sign
  sign_websocket_auth a timestamp s = sign a timestamp web_socket_auth_method web_socket_auth_path s

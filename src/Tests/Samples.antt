-- ===== src/Tests/Samples.antt =====
-- Concrete instances of the crates' parts that the model takes as parameters, and sample data.
use nautilus_futu.Prelude.{
  ℕ, ◌%◌, ◌≡◌, refl, List, [], ◌∷◌, Bool, true, false, none, some, Result, ok, err, length,
  replicate, length-replicate, ◌∙◌,
}
use nautilus_futu.Prelude.Words.{ℤ, pos}
use nautilus_futu.Prelude.Text.{Text, ascii}
use nautilus_futu.Config.{FutuConfig, default}
use nautilus_futu.Protocol.Sha1.{Sha1}
use nautilus_futu.Protocol.Codec.{FutuMessage}
use nautilus_futu.Protocol.Encryption.{Aes128, AesEcbCipher, new}
use nautilus_futu.Client.Connection.{FutuConnection}
use nautilus_futu.Client.Init.{InitCodec, S2c, Response}
use nautilus_futu.Client.Session.{FutuClient, new_client}

-- Twenty bytes that tell bodies of different lengths apart.
abbrev pub sha1 : Sha1
sha1 = record {
  digest = λ body. replicate 20 (length body % 256);
  length-digest = λ body. length-replicate 20 (length body % 256);
}

abbrev swap : List ℕ → List ℕ
swap [] = []
swap (x ∷ []) = x ∷ []
swap (x ∷ y ∷ xs) = y ∷ x ∷ xs

pub length-swap : (xs : List ℕ) → length (swap xs) ≡ length xs
length-swap [] = refl
length-swap (x ∷ []) = refl
length-swap (x ∷ y ∷ xs) = refl

pub swap-swap : (xs : List ℕ) → swap (swap xs) ≡ xs
swap-swap [] = refl
swap-swap (x ∷ []) = refl
swap-swap (x ∷ y ∷ xs) = refl

-- A block cipher that swaps the first two bytes of a block.
abbrev pub aes : Aes128
aes = record {
  encrypt_block = λ key. swap;
  decrypt_block = λ key. swap;
  length-encrypt_block = λ key block h. length-swap block ∙ h;
  length-decrypt_block = λ key block h. length-swap block ∙ h;
  decrypt_block-encrypt_block = λ key block h. swap-swap block;
  encrypt_block-decrypt_block = λ key block h. swap-swap block;
}

abbrev pub key : List ℕ
key = ascii "0123456789abcdef"

abbrev pub cipher : AesEcbCipher
cipher = new key

abbrev pub config : FutuConfig
config = record default { enable_encryption = true }

-- A connection as `connect` leaves it.
abbrev pub plain : FutuConnection
plain = record { config = config; serial_counter = 1; cipher = none; conn_id = 0 }

abbrev pub ciphered : FutuConnection
ciphered = record plain { serial_counter = 2; cipher = some cipher; conn_id = 7 }

abbrev pub s2c : S2c
s2c = record {
  server_ver = pos 900;
  login_user_id = 42;
  conn_id = 7;
  conn_aes_key = key;
  keep_alive_interval = pos 10;
  aes_cb_civ = none;
  user_attribution = none;
}

abbrev read_response : List ℕ → Result Text Response
read_response [] = err (ascii "no response")
read_response (b ∷ bs) =
    ok (record { ret_type = pos b; ret_msg = none; err_code = none; s2c = some s2c })

-- A codec of one byte: the `ret_type`.
abbrev pub codec : InitCodec
codec = record { encode_request = λ c. 1 ∷ []; decode_response = read_response }

abbrev pub encode_request : ℤ → List ℕ
encode_request now = 9 ∷ []

abbrev pub client : FutuClient
client = record (new_client ciphered) { receiving = true }

abbrev pub message : ℕ → ℕ → List ℕ → FutuMessage
message proto_id serial_no body = record { proto_id = proto_id; serial_no = serial_no; body = body }

-- No receiver is closed.
abbrev pub all_open : ℕ → Bool
all_open tx = false

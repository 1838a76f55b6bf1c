-- ===== src/Decrypt/Ccm.antt =====
-- packet-matter-decrypt.cpp: AES-CCM over OpenSSL, and an attempt to open a message with a key.
-- OpenSSL is a parameter, each call of it a function of the context that may fail. Buffers are lists
-- of bytes, which are never NULL, so the tests for NULL pointers have no counterpart.
use matter_dissector.Prelude.{
  ℕ, ◌-◌, ◌*◌, ◌/◌, ◌%◌, ◌^◌, Bool, true, false, not, ◌||◌, ltb, ◌==◌, if◌then◌else◌, Option, none,
  some, List, [], ◌∷◌, length, take, drop,
}
use matter_dissector.Message.{MatterMessageInfo}
use matter_dissector.Keys.{MessageEncryptionKey}

-- The calls of OpenSSL's EVP interface, in the roles that `AES_CCM_decrypt` uses them in. Each is
-- `none` where the call does not return 1.
pub record Evp : Type 1 where
  pub Context : Type 0
  pub new_context : Option Context
  -- with `true` for AES-128
  pub init_cipher : Bool → Context → Option Context
  pub set_iv_len : ℕ → Context → Option Context
  pub set_tag : List ℕ → Context → Option Context
  pub set_key_and_iv : List ℕ → List ℕ → Context → Option Context
  pub set_length : ℕ → Context → Option Context
  pub update_aad : List ℕ → Context → Option Context
  pub update : List ℕ → Context → Option (List ℕ)

-- What `AES_CCM_decrypt` returns: the plaintext for `MATTER_NO_ERROR`.
pub data CcmResult {ℓ} (A : Type ℓ) : Type ℓ where
  plain : A → CcmResult A
  invalid_argument internal : CcmResult A

infixl 5 ◌>>=◌ ◌>>◌
abbrev pub ◌>>=◌ {ℓ κ} : {A : Type ℓ} {B : Type κ} → CcmResult A → (A → CcmResult B) → CcmResult B
plain a >>= f = f a
invalid_argument >>= f = invalid_argument
internal >>= f = internal

abbrev pub ◌>>◌ {ℓ} : {B : Type ℓ} → CcmResult (Unit {0}) → CcmResult B → CcmResult B
m >> k = m >>= λ _. k

-- `VerifyOrExit(b, error = MATTER_ERROR_INVALID_ARGUMENT)`
abbrev pub check : Bool → CcmResult (Unit {0})
check true = plain tt
check false = invalid_argument

-- `VerifyOrExit(result == 1, error = MATTER_ERROR_INTERNAL)` after a call.
abbrev pub call : {A : Type 0} → Option A → CcmResult A
call none = internal
call (some a) = plain a

unfoldable pub is_valid_tag_length : ℕ → Bool
is_valid_tag_length tag_length = tag_length == 16

unfoldable pub is_valid_key_length : ℕ → Bool
is_valid_key_length length = (length == 16) || (length == 32)

-- `CanCastTo<int>`
unfoldable pub can_cast_to_int : ℕ → Bool
can_cast_to_int n = ltb n (2 ^ 31)

-- The result of an attempt with one key. `out_of_bounds` is a read outside of the message's buffer.
pub data Attempt {ℓ} (A : Type ℓ) : Type ℓ where
  opened : A → Attempt A
  failed out_of_bounds : Attempt A

abbrev pub attempt_of {ℓ} : {A : Type ℓ} → CcmResult A → Attempt A
attempt_of (plain a) = opened a
attempt_of invalid_argument = failed
attempt_of internal = failed

-- `kDataEncKeyLength_AES128CCM` and `AES_BLOCK_SIZE`
abbrev pub data_enc_key_length_aes128_ccm : ℕ
data_enc_key_length_aes128_ccm = 16

abbrev pub aes_block_size : ℕ
aes_block_size = 16

-- The nonce of a message: `(uint8_t)(x >> (k * 8))` is `x / 2 ^ (k * 8) % 256`.
unfoldable pub nonce_of : MatterMessageInfo → List ℕ
nonce_of m =
    m.sec_flags % 256
    ∷ m.msg_id % 256
    ∷ m.msg_id / 2 ^ (1 * 8) % 256
    ∷ m.msg_id / 2 ^ (2 * 8) % 256
    ∷ m.msg_id / 2 ^ (3 * 8) % 256
    ∷ m.src_node_id % 256
    ∷ m.src_node_id / 2 ^ (1 * 8) % 256
    ∷ m.src_node_id / 2 ^ (2 * 8) % 256
    ∷ m.src_node_id / 2 ^ (3 * 8) % 256
    ∷ m.src_node_id / 2 ^ (4 * 8) % 256
    ∷ m.src_node_id / 2 ^ (5 * 8) % 256
    ∷ m.src_node_id / 2 ^ (6 * 8) % 256
    ∷ m.src_node_id / 2 ^ (7 * 8) % 256
    ∷ []

module _ (E : Evp) where
  open E use {
    new_context, init_cipher, set_iv_len, set_tag, set_key_and_iv, set_length, update_aad, update,
  }

  -- The `if` on the length of the additional data.
  unfoldable pub pass_aad : List ℕ → E.Context → CcmResult (E.Context)
  unfolding can_cast_to_int
  pass_aad [] context = plain context
  pass_aad (a ∷ aad) context = do
    check (can_cast_to_int (length (a ∷ aad)))
    call (update_aad (a ∷ aad) context)

  unfoldable pub aes_ccm_decrypt : (ciphertext aad tag key iv : List ℕ) → CcmResult (List ℕ)
  unfolding is_valid_tag_length is_valid_key_length can_cast_to_int pass_aad
  aes_ccm_decrypt ciphertext aad tag key iv = do
    check (ltb 0 (length ciphertext))
    check (is_valid_tag_length (length tag))
    check (is_valid_key_length (length key))
    check (ltb 0 (length iv))
    context ← call new_context
    context ← call (init_cipher (length key == 16) context)
    check (can_cast_to_int (length iv))
    context ← call (set_iv_len (length iv) context)
    check (can_cast_to_int (length tag))
    context ← call (set_tag tag context)
    context ← call (set_key_and_iv key iv context)
    check (can_cast_to_int (length ciphertext))
    context ← call (set_length (length ciphertext) context)
    context ← pass_aad aad context
    check (can_cast_to_int (length ciphertext))
    call (update ciphertext context)

  -- `TryDecryptMessage_AES128CCM`. A message shorter than the tag puts the tag before the buffer.
  unfoldable pub try_decrypt_aes128_ccm :
      (enc_data aad : List ℕ) → MatterMessageInfo → MessageEncryptionKey → Attempt (List ℕ)
  unfolding aes_ccm_decrypt nonce_of
  try_decrypt_aes128_ccm enc_data aad m key =
      if not (length key.data_enc_key == data_enc_key_length_aes128_ccm)
      then failed
      else if ltb (length enc_data) aes_block_size
      then out_of_bounds
      else attempt_of (
          aes_ccm_decrypt (take (length enc_data - aes_block_size) enc_data) aad
            (drop (length enc_data - aes_block_size) enc_data) key.data_enc_key (nonce_of m))

-- ===== src/Security/Case.antt =====
-- packet-matter-security.cpp: what is kept of an exchange that sets up a session by CASE, and the session's
-- key, which is known if one party's public key is the generator of the curve.
use matter_dissector.Prelude.{
  ℕ, zero, suc, ◌+◌, ◌-◌, ◌/◌, Bool, false, not, ◌||◌, ◌==◌, if◌then◌else◌, Option, none, some,
  List, [], ◌∷◌, ◌++◌, take, drop, length,
}
use matter_dissector.Wmem.{WmemTree}
use matter_dissector.Keys.{MessageEncryptionKey, add_key, same_bytes}
use matter_dissector.Hkdf.{Digest, sha1, sha256, Crypto, hkdf_extract, hkdf_expand}
use matter_dissector.Tracker.Records.{Ptr, Heap}

-- `CASEExchangeRecord`. A public key that is not set is NULL with length zero, the empty list. A hash is
-- the part of its array that was stored.
pub record CaseExchangeRecord : Type 0 where
  pub begin_req_msg : Option Ptr
  pub begin_resp_msg : Option Ptr
  pub key_confirm_msg : Option Ptr
  pub config : ℕ
  pub curve_id : ℕ
  pub key_id : ℕ
  pub session_type : ℕ
  pub req_ecdh_public_key : List ℕ
  pub resp_ecdh_public_key : List ℕ
  pub req_msg_hash : List ℕ
  pub resp_msg_hash : List ℕ
  pub recovered_session_key : Option MessageEncryptionKey

-- `kCASEConfig_Config1` and `kCASEConfig_Config2`
abbrev pub config1 : ℕ
config1 = 0x235A_0001

abbrev pub config2 : ℕ
config2 = 0x235A_0002

abbrev pub curve_prime192v1 : ℕ
curve_prime192v1 = 0x235A_0015

abbrev pub curve_secp224r1 : ℕ
curve_secp224r1 = 0x235A_0025

abbrev pub curve_prime256v1 : ℕ
curve_prime256v1 = 0x235A_001B

unfoldable pub prime192v1_g : List ℕ
prime192v1_g =
    0x04 ∷ 0x18 ∷ 0x8d ∷ 0xa8 ∷ 0x0e ∷ 0xb0 ∷ 0x30 ∷ 0x90 ∷ 0xf6 ∷ 0x7c ∷ 0xbf ∷ 0x20 ∷ 0xeb ∷ 0x43
    ∷ 0xa1 ∷ 0x88 ∷ 0x00 ∷ 0xf4 ∷ 0xff ∷ 0x0a ∷ 0xfd ∷ 0x82 ∷ 0xff ∷ 0x10 ∷ 0x12 ∷ 0x07 ∷ 0x19
    ∷ 0x2b ∷ 0x95 ∷ 0xff ∷ 0xc8 ∷ 0xda ∷ 0x78 ∷ 0x63 ∷ 0x10 ∷ 0x11 ∷ 0xed ∷ 0x6b ∷ 0x24 ∷ 0xcd
    ∷ 0xd5 ∷ 0x73 ∷ 0xf9 ∷ 0x77 ∷ 0xa1 ∷ 0x1e ∷ 0x79 ∷ 0x48 ∷ 0x11 ∷ []

unfoldable pub secp224r1_g : List ℕ
secp224r1_g =
    0x04 ∷ 0xb7 ∷ 0x0e ∷ 0x0c ∷ 0xbd ∷ 0x6b ∷ 0xb4 ∷ 0xbf ∷ 0x7f ∷ 0x32 ∷ 0x13 ∷ 0x90 ∷ 0xb9 ∷ 0x4a
    ∷ 0x03 ∷ 0xc1 ∷ 0xd3 ∷ 0x56 ∷ 0xc2 ∷ 0x11 ∷ 0x22 ∷ 0x34 ∷ 0x32 ∷ 0x80 ∷ 0xd6 ∷ 0x11 ∷ 0x5c
    ∷ 0x1d ∷ 0x21 ∷ 0xbd ∷ 0x37 ∷ 0x63 ∷ 0x88 ∷ 0xb5 ∷ 0xf7 ∷ 0x23 ∷ 0xfb ∷ 0x4c ∷ 0x22 ∷ 0xdf
    ∷ 0xe6 ∷ 0xcd ∷ 0x43 ∷ 0x75 ∷ 0xa0 ∷ 0x5a ∷ 0x07 ∷ 0x47 ∷ 0x64 ∷ 0x44 ∷ 0xd5 ∷ 0x81 ∷ 0x99
    ∷ 0x85 ∷ 0x00 ∷ 0x7e ∷ 0x34 ∷ []

unfoldable pub prime256v1_g : List ℕ
prime256v1_g =
    0x04 ∷ 0x6b ∷ 0x17 ∷ 0xd1 ∷ 0xf2 ∷ 0xe1 ∷ 0x2c ∷ 0x42 ∷ 0x47 ∷ 0xf8 ∷ 0xbc ∷ 0xe6 ∷ 0xe5 ∷ 0x63
    ∷ 0xa4 ∷ 0x40 ∷ 0xf2 ∷ 0x77 ∷ 0x03 ∷ 0x7d ∷ 0x81 ∷ 0x2d ∷ 0xeb ∷ 0x33 ∷ 0xa0 ∷ 0xf4 ∷ 0xa1
    ∷ 0x39 ∷ 0x45 ∷ 0xd8 ∷ 0x98 ∷ 0xc2 ∷ 0x96 ∷ 0x4f ∷ 0xe3 ∷ 0x42 ∷ 0xe2 ∷ 0xfe ∷ 0x1a ∷ 0x7f
    ∷ 0x9b ∷ 0x8e ∷ 0xe7 ∷ 0xeb ∷ 0x4a ∷ 0x7c ∷ 0x0f ∷ 0x9e ∷ 0x16 ∷ 0x2b ∷ 0xce ∷ 0x33 ∷ 0x57
    ∷ 0x6b ∷ 0x31 ∷ 0x5e ∷ 0xce ∷ 0xcb ∷ 0xb6 ∷ 0x40 ∷ 0x68 ∷ 0x37 ∷ 0xbf ∷ 0x51 ∷ 0xf5 ∷ []

-- `IsCurveGenerator`
unfoldable pub is_curve_generator : ℕ → List ℕ → Bool
unfolding same_bytes prime192v1_g secp224r1_g prime256v1_g
is_curve_generator curve_id encoded_point =
    if curve_id == curve_prime192v1
    then same_bytes encoded_point prime192v1_g
    else if curve_id == curve_secp224r1
    then same_bytes encoded_point secp224r1_g
    else if curve_id == curve_prime256v1
    then same_bytes encoded_point prime256v1_g
    else false

-- The hash function of a configuration.
abbrev pub hash_algo : ℕ → Digest
hash_algo config = if config == config1 then sha1 else sha256

-- `ComputeCASEMessageHash`, of the message's bytes without the signature.
unfoldable pub compute_case_message_hash : Crypto → List ℕ → ℕ → List ℕ
compute_case_message_hash c msg_without_sig config = c.hash (hash_algo config) msg_without_sig

-- The loop of `FindCASEExchangeRecord`. `none` is out of fuel.
unfoldable pub case_loop : ℕ → Heap → Option Ptr → Option (Option Ptr)
case_loop zero h p = none
case_loop (suc fuel) h none = some none
case_loop (suc fuel) h (some p) = elim (h.cell p).case_exchange_rec [
  | some r ↦ some (some r)
  | none ↦ case_loop fuel h (h.cell p).prev_by_exchange
]

-- `FindCASEExchangeRecord`
unfoldable pub find_case_exchange_record : Heap → Ptr → Option (Option Ptr)
unfolding case_loop
find_case_exchange_record h msg = case_loop (suc h.made) h (some msg)

-- The bytes that `DeriveCASESessionKey` asks for: a key and a hash of the largest size.
abbrev pub session_key_data_len : ℕ
session_key_data_len = 16 + 32

abbrev and_then : {A B : Type 0} → Option A → (A → Option B) → Option B
and_then none f = none
and_then (some a) f = f a

-- The key that `DeriveCASESessionKey` adds.
unfoldable pub case_session_key : Crypto → CaseExchangeRecord → List ℕ → Option MessageEncryptionKey
case_session_key c r shared_secret =
    let md = hash_algo r.config in
    let salt = take (c.md_size md) r.req_msg_hash ++ take (c.md_size md) r.resp_msg_hash in
    if r.session_type == 1
    then and_then (hkdf_extract c md salt shared_secret) (λ master_key.
      and_then (hkdf_expand c md master_key [] session_key_data_len) (λ session_key_data.
        some record {
          key_id = r.key_id;
          session_type = r.session_type;
          data_enc_key = take 16 session_key_data;
          src_node_id = 0;
        }))
    else none

-- The shared secret: the first coordinate of the other party's key, if a party's key is the generator.
unfoldable pub shared_secret : CaseExchangeRecord → Option (List ℕ)
shared_secret r =
    let len = (length r.req_ecdh_public_key - 1) / 2 in
    if not (r.config == config1 || r.config == config2)
    then none
    else if not (
        r.curve_id == curve_prime192v1
        || (r.curve_id == curve_secp224r1 || r.curve_id == curve_prime256v1))
    then none
    else if not (length r.req_ecdh_public_key == length r.resp_ecdh_public_key)
    then none
    else if is_curve_generator r.curve_id r.req_ecdh_public_key
    then some (take len (drop 1 r.resp_ecdh_public_key))
    else if is_curve_generator r.curve_id r.resp_ecdh_public_key
    then some (take len (drop 1 r.req_ecdh_public_key))
    else none

module _ (c : Crypto) (W : WmemTree (List MessageEncryptionKey)) where
  open W use {Tree}

  abbrev with_key :
      CaseExchangeRecord → Option MessageEncryptionKey → Tree → CaseExchangeRecord × Tree
  with_key r none keys = (record r { recovered_session_key = none }, keys)
  with_key r (some key) keys =
      let (added, keys') = add_key W key keys in
      (record r { recovered_session_key = some added }, keys')

  -- `DeriveCASESessionKey` and the assignment of its result.
  unfoldable pub derive_case_session_key :
      CaseExchangeRecord → List ℕ → Tree → CaseExchangeRecord × Tree
  derive_case_session_key r secret keys = with_key r (case_session_key c r secret) keys

  -- `RecoverCASESessionKey`
  unfoldable pub recover_case_session_key : CaseExchangeRecord → Tree → CaseExchangeRecord × Tree
  recover_case_session_key r keys = elim (shared_secret r) [
    | none ↦ (r, keys)
    | some secret ↦ derive_case_session_key r secret keys
  ]

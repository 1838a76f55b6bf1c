-- ===== src/Keys.antt =====
-- MessageEncryptionKey.cpp: the table of message encryption keys.
-- A key is never changed once it is in the table, so the chain that starts at a pointer to it is
-- the list of the keys from it on, and NULL is the empty list. `dataEncKeyLen` is the length of the
-- key's bytes.
pub mod Laws
pub mod Added
use matter_dissector.Prelude.{
  ℕ, Bool, true, false, not, ◌&&◌, ◌==◌, if◌then◌else◌, Option, none, some, List, [], ◌∷◌, length,
}
use matter_dissector.Wmem.{WmemTree}

pub record MessageEncryptionKey : Type 0 where
  pub key_id : ℕ
  pub session_type : ℕ
  pub data_enc_key : List ℕ
  pub src_node_id : ℕ

-- `memcmp(a, b, n) == 0` of two buffers of n bytes.
unfoldable pub same_bytes : List ℕ → List ℕ → Bool
same_bytes [] [] = true
same_bytes (a ∷ cs) (b ∷ bs) = (a == b) && same_bytes cs bs
same_bytes _ _ = false

-- `MessageEncryptionKey::IsSameKey`
unfoldable pub is_same_key : MessageEncryptionKey → MessageEncryptionKey → Bool
unfolding same_bytes
is_same_key key other =
    if not (key.session_type == other.session_type)
    then false
    else if not (length key.data_enc_key == length other.data_enc_key)
    then false
    else same_bytes key.data_enc_key other.data_enc_key

-- The keys of a chain from a pointer on; a lookup that finds nothing is NULL.
unfoldable pub chain_of : Option (List MessageEncryptionKey) → List MessageEncryptionKey
chain_of none = []
chain_of (some keys) = keys

-- The loop of `AddKey` over the chain.
unfoldable pub find_same :
    MessageEncryptionKey → List MessageEncryptionKey → Option MessageEncryptionKey
unfolding is_same_key
find_same key_data [] = none
find_same key_data (key ∷ keys) =
    if is_same_key key key_data then some key else find_same key_data keys

module _ (W : WmemTree (List MessageEncryptionKey)) where
  open W use {Tree, lookup, insert}

  -- `FindKeysById`
  unfoldable pub find_keys_by_id : ℕ → Tree → List MessageEncryptionKey
  unfolding chain_of
  find_keys_by_id key_id keys = chain_of (lookup (key_id ∷ []) keys)

  -- What `AddKey` does when the loop has ended.
  unfoldable pub add_new :
      Option MessageEncryptionKey → MessageEncryptionKey → Tree → MessageEncryptionKey × Tree
  unfolding find_keys_by_id
  add_new (some key) key_data keys = (key, keys)
  add_new none key_data keys = (
    key_data,
    insert (key_data.key_id ∷ []) (key_data ∷ find_keys_by_id key_data.key_id keys) keys,
  )

  -- `AddKey`: a key that the chain has already is not added again.
  unfoldable pub add_key : MessageEncryptionKey → Tree → MessageEncryptionKey × Tree
  unfolding find_keys_by_id find_same add_new
  add_key key_data keys =
      add_new (find_same key_data (find_keys_by_id key_data.key_id keys)) key_data keys

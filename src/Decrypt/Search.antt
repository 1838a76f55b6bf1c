-- ===== src/Decrypt/Search.antt =====
-- `TryDecryptMessage` of packet-matter.cpp: the search for a key that opens a message.
-- The keys and node ids of the user's preferences and the keys of the hint files are arguments, as
-- they are after `RefreshMatterProxyHintKeys`. An attempt is a parameter: it takes the message's
-- information, with the source node id to be tried, and a key.
use matter_dissector.Prelude.{
  ℕ, ◌+◌, ◌-◌, ◌%◌, ◌^◌, Bool, false, not, ◌&&◌, ◌==◌, if◌then◌else◌, Option, none, some, List, [],
  ◌∷◌,
}
use matter_dissector.Wmem.{WmemTree}
use matter_dissector.Tvb.{Tvb}
use matter_dissector.Message.{MatterMessageInfo, encryption_type_aes128_ccm, message_is_encrypted}
use matter_dissector.Keys.{MessageEncryptionKey, find_keys_by_id, add_key}
use matter_dissector.Decrypt.Ccm.{
  Attempt, opened, failed, out_of_bounds, Evp, try_decrypt_aes128_ccm,
}

-- `MatterProxyHintKey`, with `none` where `hasKeyId` or `hasSrcNodeId` is false.
pub record MatterProxyHintKey : Type 0 where
  pub hint_key_id : Option ℕ
  pub hint_src_node_id : Option ℕ
  pub hint_key : List ℕ

-- The next attempt is made only if the one before it failed.
abbrev pub or_else {ℓ} : {A : Type ℓ} → Attempt A → Attempt A → Attempt A
or_else (opened a) b = opened a
or_else failed b = b
or_else out_of_bounds b = out_of_bounds

abbrev pub found {ℓ κ} : {A : Type ℓ} {B : Type κ} → (A → B) → Attempt A → Attempt B
found f (opened a) = opened (f a)
found f failed = failed
found f out_of_bounds = out_of_bounds

-- What a search finds: the plaintext, and the key to be added to the table, if any.
abbrev pub Found : Type 0
Found = List ℕ × Option MessageEncryptionKey

-- `msgInfoCopy.srcNodeId = node_id`
abbrev pub from_node : ℕ → MatterMessageInfo → MatterMessageInfo
from_node node_id m = record m { src_node_id = node_id }

abbrev pub or_node : Option ℕ → ℕ → ℕ
or_node (some n) m = n
or_node none m = m

-- `hint.hasKeyId && hint.keyId != msgInfo.sessionId`
abbrev pub is_for_other_session : Option ℕ → ℕ → Bool
is_for_other_session none session_id = false
is_for_other_session (some key_id) session_id = not (key_id == session_id)

unfoldable pub hint_to_key : MatterMessageInfo → MatterProxyHintKey → MessageEncryptionKey
hint_to_key m hint = record {
  key_id = m.session_id;
  session_type = encryption_type_aes128_ccm;
  data_enc_key = hint.hint_key;
  src_node_id = or_node hint.hint_src_node_id m.src_node_id;
}

module _ (attempt : MatterMessageInfo → MessageEncryptionKey → Attempt (List ℕ))
    (m : MatterMessageInfo) where
  -- The keys of the table, which carry the node id that they worked with.
  unfoldable pub known_loop : List MessageEncryptionKey → Attempt Found
  known_loop [] = failed
  known_loop (key ∷ keys) =
      or_else
        (found (λ p. (p, none))
          (if not (key.src_node_id == 0) && m.src_node_id == 0
            then attempt (from_node key.src_node_id m) key
            else attempt m key))
        (known_loop keys)

  -- A key of the preferences, with the node ids of the preferences.
  unfoldable pub node_loop : MessageEncryptionKey → List ℕ → Attempt Found
  node_loop key [] = failed
  node_loop key (node_id ∷ node_ids) =
      or_else
        (found (λ p. (p, some (record key { src_node_id = node_id; key_id = m.session_id })))
          (attempt (from_node node_id m) key))
        (node_loop key node_ids)

  -- The keys of the preferences.
  unfoldable pub prefs_loop : List ℕ → List MessageEncryptionKey → Attempt Found
  unfolding node_loop
  prefs_loop node_ids [] = failed
  prefs_loop node_ids (pref ∷ prefs) =
      let key : MessageEncryptionKey = record pref { src_node_id = m.src_node_id } in
      or_else
        (or_else (found (λ p. (p, some (record key { key_id = m.session_id }))) (attempt m key))
          (if m.src_node_id == 0 then node_loop key node_ids else failed))
        (prefs_loop node_ids prefs)

  -- The second attempt with a hint.
  unfoldable pub retry_hint : Option ℕ → MessageEncryptionKey → Attempt Found
  retry_hint none key = failed
  retry_hint (some node_id) key =
      if m.src_node_id == 0
      then found (λ p. (p, some key)) (attempt (from_node node_id m) key)
      else failed

  -- The keys of the hints.
  unfoldable pub hint_loop : List MatterProxyHintKey → Attempt Found
  unfolding hint_to_key retry_hint
  hint_loop [] = failed
  hint_loop (hint ∷ hints) =
      let rest = hint_loop hints in
      if is_for_other_session hint.hint_key_id m.session_id
      then rest
      else let key = hint_to_key m hint in
        or_else
          (or_else (found (λ p. (p, some key)) (attempt m key))
            (retry_hint hint.hint_src_node_id key))
          rest

  -- The three searches, one after the other.
  unfoldable pub search_keys :
      (known prefs : List MessageEncryptionKey) (node_ids : List ℕ)
      (from_file from_dsb : List MatterProxyHintKey)
      → Attempt Found
  unfolding known_loop prefs_loop hint_loop
  search_keys known prefs node_ids from_file from_dsb =
      or_else (known_loop known)
        (or_else (prefs_loop node_ids prefs) (or_else (hint_loop from_file) (hint_loop from_dsb)))

-- What `TryDecryptMessage` does to a message: `thrown` is Wireshark's exception for data that the
-- packet does not have, `returned` the data with the table of keys.
pub data Decrypted (A : Type 0) : Type 0 where
  thrown read_out_of_bounds : Decrypted A
  returned : Option (List ℕ) → A → Decrypted A

-- The difference of two 32-bit numbers.
abbrev pub sub32 : ℕ → ℕ → ℕ
sub32 a b = (a + (2 ^ 32 - b)) % 2 ^ 32

module _ (T : Tvb) (E : Evp) (W : WmemTree (List MessageEncryptionKey)) where
  open T use {memdup}
  open W use {Tree}

  -- `if (success) MessageEncryptionKeyTable::AddKey(...)`
  unfoldable pub remember : Option MessageEncryptionKey → Tree → Tree
  unfolding add_key
  remember none keys = keys
  remember (some key) keys = (add_key W key keys).1

  unfoldable pub conclude : Attempt Found → Tree → Decrypted Tree
  unfolding remember
  conclude (opened (p, key)) keys = returned (some p) (remember key keys)
  conclude failed keys = returned none keys
  conclude out_of_bounds keys = read_out_of_bounds

  unfoldable pub search_with :
      Option (List ℕ)
      → Option (List ℕ)
      → MatterMessageInfo
      → (prefs : List MessageEncryptionKey) (node_ids : List ℕ)
      → (from_file from_dsb : List MatterProxyHintKey) → Tree
      → Decrypted Tree
  unfolding conclude search_keys find_keys_by_id try_decrypt_aes128_ccm
  search_with (some enc_data) (some aad) m prefs node_ids from_file from_dsb keys =
      conclude
        (search_keys (try_decrypt_aes128_ccm E enc_data aad) m (find_keys_by_id W m.session_id keys)
          prefs node_ids from_file from_dsb)
        keys
  search_with _ _ m prefs node_ids from_file from_dsb keys = thrown

  -- `TryDecryptMessage`
  unfoldable pub try_decrypt_message :
      (tvb : List ℕ) (enc_data_offset : ℕ)
      → MatterMessageInfo
      → (prefs : List MessageEncryptionKey) (node_ids : List ℕ)
      → (from_file from_dsb : List MatterProxyHintKey) → Tree
      → Decrypted Tree
  unfolding message_is_encrypted search_with
  try_decrypt_message tvb enc_data_offset m prefs node_ids from_file from_dsb keys =
      if message_is_encrypted m
      then search_with (memdup tvb enc_data_offset (sub32 m.msg_len enc_data_offset))
          (memdup tvb 0 enc_data_offset) m prefs node_ids from_file from_dsb keys
      else returned none keys

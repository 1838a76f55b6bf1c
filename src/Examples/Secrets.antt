-- ===== src/Examples/Secrets.antt =====
-- Keys that are added and tried.
use matter_dissector.Prelude.{
  ℕ, ◌==◌, ◌≡◌, refl, true, if◌then◌else◌, is_some, some, List, [], ◌∷◌, arith, length,
}
use matter_dissector.Wmem.Assoc.{assoc_tree, lookup_in}
use matter_dissector.Message.{MatterMessageInfo}
use matter_dissector.Keys.{MessageEncryptionKey, find_keys_by_id, find_same, add_key}
use matter_dissector.Keys.Laws.{NoRepeats, add_key_lem}
use matter_dissector.Keys.Added.{knows, add_keys, has_key, add_keys_lem}
use matter_dissector.Decrypt.Ccm.{Attempt, opened, failed, nonce_of}
use matter_dissector.Decrypt.Search.{MatterProxyHintKey, search_keys}
use matter_dissector.Decrypt.Candidates.{first_of, candidates, search_keys_lem}
use matter_dissector.Decrypt.Nonce.{fields_of, nonce_of_lem}

abbrev key_of : ℕ → MessageEncryptionKey
key_of b = record { key_id = 3; session_type = 1; data_enc_key = b ∷ []; src_node_id = 0 }

no_repeats : NoRepeats (find_keys_by_id assoc_tree 3 [])
unfolding lookup_in find_keys_by_id
no_repeats = tt

add_key_lem_example :
    NoRepeats (find_keys_by_id assoc_tree 3 (add_key assoc_tree (key_of 8) []).1)
    × (is_some
          (find_same (key_of 8) (find_keys_by_id assoc_tree 3 (add_key assoc_tree (key_of 8) []).1))
        ≡ true)
    × (find_keys_by_id assoc_tree 4 (add_key assoc_tree (key_of 8) []).1
        ≡ find_keys_by_id assoc_tree 4 [])
add_key_lem_example = add_key_lem assoc_tree (key_of 8) [] 4 no_repeats (omega arith)

abbrev message : MatterMessageInfo
message = record {
  msg_version = 0;
  msg_flags = 0;
  sec_flags = 0;
  src_node_id = 0;
  dest_node_id = 0;
  msg_id = 0x01020304;
  ack_msg_cntr = 0;
  msg_protocol_id = 0;
  msg_protocol_vendor_id = 0;
  exch_id = 0;
  session_type = 0;
  session_id = 3;
  exch_header = 0;
  msg_type = 0;
  msg_len = 40;
  header_len = 8;
  payload_len = 0;
  trailer_len = 0;
}

nonce_of_lem_example :
    (length (nonce_of message) ≡ 13) × (fields_of (nonce_of message) ≡ some (0, 0x01020304, 0))
nonce_of_lem_example = nonce_of_lem message (omega arith) (omega arith) (omega arith)

-- Only node 9 with key 8 opens the message.
abbrev only_nine : MatterMessageInfo → MessageEncryptionKey → Attempt (List ℕ)
only_nine m key = if m.src_node_id == 9 then opened key.data_enc_key else failed

abbrev hints : List MatterProxyHintKey
hints = record { hint_key_id = some 3; hint_src_node_id = some 9; hint_key = 6 ∷ [] } ∷ []

search_run :
    search_keys only_nine message (key_of 7 ∷ []) (key_of 8 ∷ []) (5 ∷ 9 ∷ []) hints []
    ≡ opened (
      8 ∷ [],
      some (record { key_id = 3; session_type = 1; data_enc_key = 8 ∷ []; src_node_id = 9 }),
    )
unfolding search_keys
search_run = refl

search_keys_lem_example :
    search_keys only_nine message (key_of 7 ∷ []) (key_of 8 ∷ []) (5 ∷ 9 ∷ []) hints []
    ≡ first_of only_nine message
        (candidates message (key_of 7 ∷ []) (key_of 8 ∷ []) (5 ∷ 9 ∷ []) hints [])
search_keys_lem_example =
    search_keys_lem only_nine message (key_of 7 ∷ []) (key_of 8 ∷ []) (5 ∷ 9 ∷ []) hints []

add_keys_lem_example :
    (knows assoc_tree (add_keys assoc_tree (key_of 8 ∷ key_of 9 ∷ key_of 8 ∷ []) []) (key_of 9)
      ≡ has_key (key_of 9) (key_of 8 ∷ key_of 9 ∷ key_of 8 ∷ []))
    × NoRepeats (
        find_keys_by_id assoc_tree 3 (add_keys assoc_tree (key_of 8 ∷ key_of 9 ∷ key_of 8 ∷ []) []))
add_keys_lem_example = add_keys_lem assoc_tree (key_of 8 ∷ key_of 9 ∷ key_of 8 ∷ []) (key_of 9)

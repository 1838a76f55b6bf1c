-- ===== src/Examples/Tracking.antt =====
-- Three messages of one exchange, of which the last two repeat the first.
use matter_dissector.Prelude.{
  ℕ, ◌+◌, ◌%◌, ◌^◌, ◌≡◌, ◌≢◌, refl, ap, Bool, true, false, not, ◌==◌, if◌then◌else◌, Option, none,
  some, List, [], ◌∷◌, arith,
}
use matter_dissector.Wmem.Assoc.{assoc_tree, lookup_in, same_key}
use matter_dissector.Tracker.Records.{Ptr, MatterMessageRecord, Heap, by_msg_cntr}
use matter_dissector.Tracker.Tables.{
  TableId, number, unencrypted_udp, group_encrypted_udp, session_encrypted_udp,
  session_encrypted_tcp, Tracker, get_messages, add_message, get_message_id_table_and_key,
}
use matter_dissector.Tracker.Find.{
  Retransmissions, find_retransmissions, find_reused_message_ids, find_start_of_exchange,
}
use matter_dissector.Tracker.Search.{
  count, Best, Place, find_retransmissions_lem, find_reused_message_ids_lem,
}
use matter_dissector.Tracker.Start.{IsStart, find_start_of_exchange_lem}
use matter_dissector.Tracker.Insert.{Doubly, others, add_message_lem}
use matter_dissector.Tracker.Keys.{table_ignores_session}

-- A record with the same neighbours in both chains.
abbrev linked : ℕ → ℕ → Bool → Option Ptr → Option Ptr → MatterMessageRecord
linked frame_num fingerprint is_initiator next prev = record {
  frame_num = frame_num;
  fingerprint = fingerprint;
  is_initiator = is_initiator;
  im_subscription = 0;
  acked_by_msg_rec = none;
  next_by_msg_cntr = next;
  prev_by_msg_cntr = prev;
  next_by_exchange = next;
  prev_by_exchange = prev;
  case_exchange_rec = none;
}

abbrev three : Heap
three = record {
  made = 3;
  cell = λ q.
      if q == 0
      then linked 4 77 true (some 1) none
      else if q == 1
      then linked 6 77 true (some 2) (some 0)
      else linked 9 77 true none (some 1);
}

abbrev middle : Place 1 three (0 ∷ []) (2 ∷ [])
middle = record {
  back = (refl, refl);
  forth = (refl, refl);
  few_before = omega arith;
  few_after = omega arith;
}

retransmissions_run :
    find_retransmissions 1 three
    ≡ some (record { retrans_of_msg = some 0; retrans_num = 1; total_retrans = 2 })
unfolding find_retransmissions
retransmissions_run = refl

find_retransmissions_lem_example :
    (r : Retransmissions) × (find_retransmissions 1 three ≡ some r)
    × (r.retrans_num ≡ count three 77 (0 ∷ []) % 2 ^ 32)
    × (r.total_retrans ≡ (count three 77 (0 ∷ []) + count three 77 (2 ∷ [])) % 2 ^ 32)
    × Best three (λ x. 77 == (three.cell x).fingerprint) none (0 ∷ []) r.retrans_of_msg
find_retransmissions_lem_example = find_retransmissions_lem 1 three (0 ∷ []) (2 ∷ []) middle

find_reused_message_ids_lem_example :
    (found : Option Ptr) × (find_reused_message_ids 1 three ≡ some found)
    × Best three (λ x. not (77 == (three.cell x).fingerprint)) none (0 ∷ []) found
find_reused_message_ids_lem_example = find_reused_message_ids_lem 1 three (0 ∷ []) (2 ∷ []) middle

start_run : find_start_of_exchange 2 three ≡ some 0
unfolding find_start_of_exchange
start_run = refl

find_start_of_exchange_lem_example :
    (x : Ptr) × (find_start_of_exchange 2 three ≡ some x) × IsStart three (2 ∷ 1 ∷ 0 ∷ []) x
find_start_of_exchange_lem_example =
    find_start_of_exchange_lem 2 three (1 ∷ 0 ∷ []) (refl, (refl, refl)) (omega arith)

-- One record in the table of unencrypted messages, one in the table of groups, and a new one that no
-- chain leads to.
abbrev two : Heap
two = record { made = 4; cell = λ q. linked 4 77 true none none }

abbrev tracked : Tracker assoc_tree
tracked = record {
  table = λ t. if number t == 0 then (5 ∷ [], 0) ∷ [] else (8 ∷ [], 2) ∷ [];
  proto_data = [];
  heap = two;
}

abbrev own_entry : TableId × List ℕ
own_entry = (unencrypted_udp, 5 ∷ [])

abbrev other_entry : TableId × List ℕ
other_entry = (group_encrypted_udp, 8 ∷ [])

tracked_chain : Doubly two by_msg_cntr none (get_messages assoc_tree own_entry tracked) (0 ∷ [])
unfolding get_messages lookup_in same_key
tracked_chain = (refl, refl, refl)

other_chain : Doubly two by_msg_cntr none (get_messages assoc_tree other_entry tracked) (2 ∷ [])
unfolding get_messages lookup_in same_key
other_chain = (refl, refl, refl)

entries_differ : other_entry ≢ own_entry
entries_differ e =
    let z : number group_encrypted_udp ≡ number unencrypted_udp = ap (λ k. number k.0) e in
    omega arith

add_message_lem_example :
    (s' : Tracker assoc_tree) × (add_message assoc_tree by_msg_cntr own_entry 1 tracked ≡ some s')
    × Doubly s'.heap by_msg_cntr none (get_messages assoc_tree own_entry s') (0 ∷ 1 ∷ [])
    × Doubly s'.heap by_msg_cntr none (get_messages assoc_tree other_entry s') (2 ∷ [])
    × (s'.heap.cell 3 ≡ two.cell 3)
    × ((y : Ptr) → others by_msg_cntr (s'.heap.cell y) ≡ others by_msg_cntr (two.cell y))
add_message_lem_example =
    add_message_lem assoc_tree by_msg_cntr unencrypted_udp (5 ∷ []) 1 tracked (0 ∷ []) other_entry
      (2 ∷ []) 3 tracked_chain (omega arith) (tt, tt) (omega arith, tt) refl refl entries_differ
      other_chain (((omega arith, tt), omega arith), tt) (omega arith) (omega arith, tt)

table_ignores_session_example :
    let entry = get_message_id_table_and_key 1 2 1 3 false 0 in
    (entry ≡ get_message_id_table_and_key 1 2 1 4 false 0)
    × (entry.0 ≢ session_encrypted_udp)
    × (entry.0 ≢ session_encrypted_tcp)
table_ignores_session_example = table_ignores_session 1 2 1 3 4 false 0

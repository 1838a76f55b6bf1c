-- ===== src/Tracker/Find.antt =====
-- The searches of MatterMessageTracker.cpp. Each loop follows a chain from a pointer; `none` is out
-- of fuel, of which one round more than there are records is given.
use matter_dissector.Prelude.{
  ℕ, zero, suc, ◌+◌, ◌%◌, ◌^◌, Bool, false, ◌&&◌, ◌==◌, ltb, if◌then◌else◌, Option, none, some,
}
use matter_dissector.Encoding.{◌>>=◌}
use matter_dissector.Wmem.{WmemTree}
use matter_dissector.Message.{MatterMessageInfo, has_ack_id}
use matter_dissector.Tracker.Records.{Ptr, MatterMessageRecord, Heap, update}
use matter_dissector.Tracker.Tables.{Tracker, get_messages, get_message_id_table_and_key}

-- `retransOfMsg`, `retransNum` and `totalRetrans`.
pub record Retransmissions : Type 0 where
  pub retrans_of_msg : Option Ptr
  pub retrans_num : ℕ
  pub total_retrans : ℕ

-- The earlier by frame number of a candidate and what was found so far.
abbrev pub earlier : Heap → Ptr → Option Ptr → Option Ptr
earlier h p none = some p
earlier h p (some q) = if ltb (h.cell p).frame_num (h.cell q).frame_num then some p else some q

abbrev pub later : Heap → Ptr → Option Ptr → Option Ptr
later h p none = some p
later h p (some q) = if ltb (h.cell q).frame_num (h.cell p).frame_num then some p else some q

-- The body of the first loop in `FindRetransmissions`.
abbrev pub count_before : Heap → ℕ → Ptr → Retransmissions → Retransmissions
count_before h fingerprint p r =
    if fingerprint == (h.cell p).fingerprint
    then record {
      retrans_of_msg = earlier h p r.retrans_of_msg;
      retrans_num = (r.retrans_num + 1) % 2 ^ 32;
      total_retrans = (r.total_retrans + 1) % 2 ^ 32;
    }
    else r

-- The body of the second.
abbrev pub count_after : Heap → ℕ → Ptr → Retransmissions → Retransmissions
count_after h fingerprint p r =
    if fingerprint == (h.cell p).fingerprint
    then record r { total_retrans = (r.total_retrans + 1) % 2 ^ 32 }
    else r

-- `for (p = start; p != NULL; p = p->step) body`, with the body as a function of a state.
unfoldable pub walk {ℓ} :
    {S : Type ℓ}
    → (ℕ → (MatterMessageRecord → Option Ptr) → Heap → (Ptr → S → S) → Option Ptr → S → Option S)
walk zero step h body p s = none
walk (suc fuel) step h body none s = some s
walk (suc fuel) step h body (some p) s = walk fuel step h body (step (h.cell p)) (body p s)

unfoldable pub find_retransmissions : Ptr → Heap → Option Retransmissions
unfolding walk
find_retransmissions msg_rec h =
    let fingerprint = (h.cell msg_rec).fingerprint in
    let start : Retransmissions = record {
      retrans_of_msg = none;
      retrans_num = 0;
      total_retrans = 0;
    } in
    do
      r ←
          walk (suc h.made) (λ c. c.prev_by_msg_cntr) h (count_before h fingerprint)
            (h.cell msg_rec).prev_by_msg_cntr start
      walk (suc h.made) (λ c. c.next_by_msg_cntr) h (count_after h fingerprint)
          (h.cell msg_rec).next_by_msg_cntr r

-- The body of the loop in `FindReusedMessageIds`.
abbrev pub note_reuse : Heap → ℕ → Ptr → Option Ptr → Option Ptr
note_reuse h fingerprint p found =
    if fingerprint == (h.cell p).fingerprint then found else earlier h p found

-- The result is `reusesMsgCntrFrom`.
unfoldable pub find_reused_message_ids : Ptr → Heap → Option (Option Ptr)
unfolding walk
find_reused_message_ids msg_rec h =
    walk (suc h.made) (λ c. c.prev_by_msg_cntr) h (note_reuse h (h.cell msg_rec).fingerprint)
      (h.cell msg_rec).prev_by_msg_cntr none

-- The first `if` of the loop in `FindAckedMessages`.
abbrev pub mark_acked : Heap → Ptr → Ptr → MatterMessageRecord → MatterMessageRecord
mark_acked h msg_rec p r = elim r.acked_by_msg_rec [
  | none ↦ record r { acked_by_msg_rec = some msg_rec }
  | some q ↦
      if ltb (h.cell msg_rec).frame_num (h.cell q).frame_num
      then record r { acked_by_msg_rec = some msg_rec }
      else r
]

-- The body of that loop, on the heap and `ackedMsg`.
abbrev pub ack_one : Ptr → Ptr → Heap × Option Ptr → Heap × Option Ptr
ack_one msg_rec p (h, acked) =
    if ltb (h.cell p).frame_num (h.cell msg_rec).frame_num
    then (update p (mark_acked h msg_rec p) h, later h p acked)
    else (h, acked)

unfoldable pub ack_loop : ℕ → Ptr → Option Ptr → Heap × Option Ptr → Option (Heap × Option Ptr)
ack_loop zero msg_rec p s = none
ack_loop (suc fuel) msg_rec none s = some s
ack_loop (suc fuel) msg_rec (some p) s =
    let s' = ack_one msg_rec p s in ack_loop fuel msg_rec (s'.0.cell p).next_by_msg_cntr s'

-- `pinfo->ptype == PT_UDP` and the other conditions under which the source looks at the ack.
unfoldable pub carries_ack : Bool → MatterMessageInfo → Bool
carries_ack is_udp m = is_udp && ltb 1 m.msg_version && has_ack_id m.exch_header

module _ (W : WmemTree ℕ) where
  -- The result is the tracker with its marked records, and `ackedMsg`, which is NULL before.
  unfoldable pub find_acked_messages :
      Bool → Ptr → MatterMessageInfo → Tracker W → Option (Tracker W × Option Ptr)
  unfolding carries_ack ack_loop get_messages get_message_id_table_and_key
  find_acked_messages is_udp msg_rec m s =
      let list =
        get_messages W
          (get_message_id_table_and_key m.dest_node_id m.ack_msg_cntr m.session_type m.session_id
            false 0)
          s in
      let acks = ack_loop (suc s.heap.made) msg_rec list (s.heap, none) in
      if carries_ack is_udp m
      then (do (h, acked) ← acks; some (record s { heap = h }, acked))
      else some (s, none)

-- `start->prevByExchange` folds into `start`: an initiator's message with the same fingerprint.
abbrev pub folds : Heap → Ptr → Ptr → Bool
folds h start q = (h.cell q).is_initiator && ((h.cell q).fingerprint == (h.cell start).fingerprint)

-- The inner loop of `FindStartOfExchange`, on `start` and its `prevByExchange`.
unfoldable pub fold_loop : ℕ → Heap → Ptr → Option Ptr → Option Ptr
fold_loop zero h start prev = none
fold_loop (suc fuel) h start none = some start
fold_loop (suc fuel) h start (some q) =
    let rest = fold_loop fuel h q (h.cell q).prev_by_exchange in
    if folds h start q then rest else some start

-- The outer loop.
unfoldable pub start_loop : ℕ → Heap → Option Ptr → Ptr → Option Ptr
unfolding fold_loop
start_loop zero h p first_in_chain = none
start_loop (suc fuel) h none first_in_chain = some first_in_chain
start_loop (suc fuel) h (some p) first_in_chain =
    let rest = start_loop fuel h (h.cell p).prev_by_exchange p in
    if (h.cell p).is_initiator then fold_loop (suc h.made) h p (h.cell p).prev_by_exchange else rest

unfoldable pub find_start_of_exchange : Ptr → Heap → Option Ptr
unfolding start_loop
find_start_of_exchange msg_rec h = start_loop (suc h.made) h (some msg_rec) msg_rec

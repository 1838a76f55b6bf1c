-- ===== src/Security/Ends.antt =====
-- `DissectMatterSecurity` on every payload.
use matter_dissector.Prelude.{
  ℕ, zero, suc, ◌+◌, ◌-◌, ◌^◌, ◌<◌, ◌≡◌, Bool, true, false, is_some, Option, some, none, List, [],
  length, if◌then◌else◌,
}
use matter_dissector.Tree.{ProtoItem, outer, item, Field}
use matter_dissector.Dissector.{Act}
use matter_dissector.Dissector.Safety.{SafeBelow}
use matter_dissector.Tracker.Records.{Ptr}
use matter_dissector.Tracker.Chains.{Follows}
use matter_dissector.Packet.{Packet, pure, rounds, ◌>>=◌}
use matter_dissector.Packet.Safety.{
  Ends, PacketSafe, packets, chain, copied-Safe, length-copy, either-Safe, pure-Safe,
  add_value-Safe, add_range-Safe, returning-Safe, with_tlv-Safe,
}
use matter_dissector.Security.Fields.{proto_matter_security}
use matter_dissector.Security.Safety.{
  cert_info_element-Safe, ecdsa_sig_element-Safe, add_profile_structure-Safe,
}
use matter_dissector.Security.Case.{CaseExchangeRecord}
use matter_dissector.Security.State.{Setting, SecurityState, in_exchange, by_found}
use matter_dissector.Security.Begin.{
  add_elements, add_elements_list, add_profile_data, add_request_parts, record_request,
  dissect_case_begin_session_request, or_invalid, add_response_parts, record_response,
  dissect_case_begin_session_response,
}
use matter_dissector.Security.Recovery.{find_case_exchange_record_lem}
use matter_dissector.Security.{
  dissect_case_initiator_key_confirm, dissect_case_reconfigure, dissect_message_counter_sync_resp,
  dissect_key_error, security_message, finish_security, dissect_matter_security,
}

add_elements-Safe :
    (count : ℕ) (payload : List ℕ) (list : ProtoItem) (f : Field) (parse_point : ℕ)
    → PacketSafe (add_elements count payload list f parse_point)
unfolding add_elements
add_elements-Safe zero payload list f parse_point = pure-Safe tt
add_elements-Safe (suc count) payload list f parse_point =
    chain (add_range-Safe _ _ _ _ _ _) λ _. add_elements-Safe count payload list f (parse_point + 4)

add_elements_list-Safe :
    (payload : List ℕ) (tree : ProtoItem) (f g : Field) (parse_point shown_count count : ℕ)
    → PacketSafe (add_elements_list payload tree f g parse_point shown_count count)
unfolding add_elements_list
add_elements_list-Safe payload tree f g parse_point shown_count count =
    search (packets, add_elements-Safe) depth 20

by_bits-Safe : (o : Option ℕ) → PacketSafe (or_invalid o)
by_bits-Safe none = search packets
by_bits-Safe (some n) = search packets

-- A function of the `switch`, if there is one.
abbrev EachSafe : {A : Type 0} → Option (Packet A) → Type 0
EachSafe none = Unit
EachSafe (some m) = PacketSafe m

either-EachSafe :
    {A : Type 0} (b : Bool) (o o' : Option (Packet A))
    → EachSafe o
    → EachSafe o'
    → EachSafe (if b then o else o')
either-EachSafe true o o' p q = p
either-EachSafe false o o' p q = q

rounds-Safe :
    {A B : Type 0} (o : Option A) (a : A) (k : A → Packet B)
    → o ≡ some a
    → PacketSafe (k a)
    → PacketSafe (rounds o >>= k)
unfolding rounds ◌>>=◌ pure
rounds-Safe o a k e p = record { ends = λ calls. rw e (p.ends calls) }

module _ (s : Setting) (m : Ptr) (payload : List ℕ) (small : length payload < 2 ^ 16)
    (tree : ProtoItem) where
  add_profile_data-Safe :
      (offset len tag_num : ℕ) (f : Field) (element : ProtoItem → ℕ → Act (Unit {0}))
      → ((sub_tree : ProtoItem) (tag : ℕ) → SafeBelow (2 ^ 32) (element sub_tree tag))
      → PacketSafe (add_profile_data s m payload tree offset len tag_num f element)
  unfolding add_profile_data
  add_profile_data-Safe offset len tag_num f element p =
      copied-Safe (s.tvb.memdup payload offset len) λ bytes e.
        with_tlv-Safe s.host bytes offset _ (length-copy s.tvb payload small offset len bytes e)
          (add_profile_structure-Safe s.host tree tag_num f element p)

  add_request_parts-Safe :
      (parse_point cert_info_len payload_len sig_len : ℕ)
      → PacketSafe
          (add_request_parts s m payload tree parse_point cert_info_len payload_len sig_len)
  unfolding add_request_parts
  add_request_parts-Safe parse_point cert_info_len payload_len sig_len =
      search (packets, add_profile_data-Safe, cert_info_element-Safe, ecdsa_sig_element-Safe) depth
        20

  add_response_parts-Safe :
      (parse_point cert_info_len payload_len sig_len hash_len : ℕ)
      → PacketSafe (
          add_response_parts s m payload tree parse_point cert_info_len payload_len sig_len
            hash_len)
  unfolding add_response_parts
  add_response_parts-Safe parse_point cert_info_len payload_len sig_len hash_len =
      search (packets, add_profile_data-Safe, cert_info_element-Safe, ecdsa_sig_element-Safe) depth
        20

  record_request-Safe :
      (st : SecurityState s) (exchange : List ℕ → List ℕ → CaseExchangeRecord) (offset len n c : ℕ)
      → PacketSafe (record_request s m payload tree st exchange offset len n c)
  unfolding record_request
  record_request-Safe st exchange offset len n c = search packets depth 20

  dissect_case_begin_session_request-Safe :
      (st : SecurityState s) → PacketSafe (dissect_case_begin_session_request s m payload tree st)
  unfolding dissect_case_begin_session_request
  dissect_case_begin_session_request-Safe st =
      search (packets, add_elements_list-Safe, add_request_parts-Safe, record_request-Safe) depth 40

  dissect_case_reconfigure-Safe : PacketSafe (dissect_case_reconfigure s m payload tree)
  unfolding dissect_case_reconfigure
  dissect_case_reconfigure-Safe = search packets depth 20

  dissect_message_counter_sync_resp-Safe :
      PacketSafe (dissect_message_counter_sync_resp s m payload tree)
  unfolding dissect_message_counter_sync_resp
  dissect_message_counter_sync_resp-Safe = search packets depth 20

  dissect_key_error-Safe : PacketSafe (dissect_key_error s m payload tree)
  unfolding dissect_key_error
  dissect_key_error-Safe = search packets depth 20

  module _ (st : SecurityState s) (before : List Ptr)
      (backward : Follows
        (λ r. r.prev_by_exchange)
        st.messages
        (st.messages.cell m).prev_by_exchange
        before)
      (before_made : length before < st.messages.made) where
    by_found-Safe :
        (k : Ptr → Packet (SecurityState s)) (o : Option Ptr)
        → ((p : Ptr) → PacketSafe (k p))
        → PacketSafe (by_found s st k o)
    by_found-Safe k none f = pure-Safe st
    by_found-Safe k (some p) f = f p

    in_exchange-Safe :
        (k : Ptr → Packet (SecurityState s))
        → ((p : Ptr) → PacketSafe (k p))
        → PacketSafe (in_exchange s m st k)
    unfolding in_exchange
    in_exchange-Safe k f =
        either-Safe (is_some (st.messages.cell m).case_exchange_rec) (pure-Safe st) (
          rounds-Safe _ _ (by_found s st k)
            (find_case_exchange_record_lem st.messages m before backward before_made)
            (by_found-Safe k _ f))

    record_response-Safe : (len n : ℕ) → PacketSafe (record_response s m payload tree st len n)
    unfolding record_response
    record_response-Safe len n = search (packets, in_exchange-Safe) depth 20

    dissect_case_begin_session_response-Safe :
        PacketSafe (dissect_case_begin_session_response s m payload tree st)
    unfolding dissect_case_begin_session_response
    dissect_case_begin_session_response-Safe =
        search (packets, by_bits-Safe, add_response_parts-Safe, record_response-Safe) depth 40

    dissect_case_initiator_key_confirm-Safe :
        PacketSafe (dissect_case_initiator_key_confirm s m payload tree st)
    unfolding dissect_case_initiator_key_confirm
    dissect_case_initiator_key_confirm-Safe = search (packets, in_exchange-Safe) depth 20

    security_message-Safe :
        (msg_type : ℕ) → EachSafe (security_message s m payload tree msg_type st)
    unfolding security_message
    security_message-Safe msg_type =
        search
          (
            packets, either-EachSafe, dissect_case_begin_session_request-Safe,
            dissect_case_begin_session_response-Safe, dissect_case_initiator_key_confirm-Safe,
            dissect_case_reconfigure-Safe, dissect_message_counter_sync_resp-Safe,
            dissect_key_error-Safe,
          )
          depth 20

    finish_security-Safe :
        (o : Option (Packet (SecurityState s)))
        → EachSafe o
        → PacketSafe (finish_security s m payload tree st o)
    unfolding finish_security
    finish_security-Safe none p = pure-Safe (0, st)
    finish_security-Safe (some msg) p = returning-Safe _ _ p

-- `DissectMatterSecurity` on a payload of fewer than 65536 bytes and any type of message, about a message
-- whose earlier messages of the exchange are finitely many, comes to an end: no read of TLV data outside of
-- its bytes, and no loop out of rounds. It returns, or an exception or
-- assertion of Wireshark, a null pointer or a copy past a block ends it.
pub dissect_matter_security-Ends :
    (s : Setting) (msg_type : ℕ) (m : Ptr) (payload : List ℕ) (st : SecurityState s)
    (before : List Ptr)
    → length payload < 2 ^ 16
    → Follows (λ r. r.prev_by_exchange) st.messages (st.messages.cell m).prev_by_exchange before
    → length before < st.messages.made
    → Ends (dissect_matter_security s msg_type m payload st)
unfolding dissect_matter_security
dissect_matter_security-Ends s msg_type m payload st before small backward before_made =
    (chain (add_value-Safe outer proto_matter_security 0 (2 ^ 32 - 1) item) λ tree.
        finish_security-Safe s m payload small tree st before backward before_made _ (
          security_message-Safe s m payload small tree st before backward before_made
            msg_type)).ends
      []

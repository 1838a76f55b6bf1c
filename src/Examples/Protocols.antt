-- ===== src/Examples/Protocols.antt =====
-- Messages of the secure channel, of user directed commissioning and of the security protocol, and keys
-- that are derived.
use matter_dissector.Prelude.{
  ℕ, ◌≡◌, refl, true, false, ◌==◌, if◌then◌else◌, is_some, Option, none, some, List, [], ◌∷◌, take,
  drop, length, arith,
}
use matter_dissector.Tree.{Host, outer}
use matter_dissector.Wmem.Assoc.{assoc_tree, lookup_in}
use matter_dissector.Tvb.Bytes.{bytes_tvb}
use matter_dissector.Tracker.Records.{MatterMessageRecord, Heap}
use matter_dissector.Keys.{MessageEncryptionKey, find_keys_by_id, find_same}
use matter_dissector.Keys.Laws.{NoRepeats}
use matter_dissector.Hkdf.{Crypto, sha1, block_input, hkdf_extract, hkdf_expand}
use matter_dissector.Hkdf.Rfc.{blocks, hkdf_expand_lem}
use matter_dissector.Packet.{gives}
use matter_dissector.Packet.Safety.{Ends}
use matter_dissector.Common.{dissect_matter_common}
use matter_dissector.Common.Ends.{dissect_matter_common-Ends}
use matter_dissector.Udc.{dissect_udc}
use matter_dissector.Udc.Ends.{dissect_udc-Ends}
use matter_dissector.Security.Case.{
  CaseExchangeRecord, compute_case_message_hash, config1, curve_prime192v1, prime192v1_g,
  find_case_exchange_record, is_curve_generator, shared_secret, case_session_key,
}
use matter_dissector.Security.State.{Setting, SecurityState, responded}
use matter_dissector.Security.Begin.{record_response}
use matter_dissector.Security.Recovery.{
  first_case, find_case_exchange_record_lem, record_response_lem,
}
use matter_dissector.Security.{dissect_matter_security}
use matter_dissector.Security.Ends.{dissect_matter_security-Ends}

abbrev host : Host
host = record {
  realloc = λ n. true;
  malloc = λ n. true;
  is_null = λ i. false;
  shows_point = λ f. true;
  unnamed_attribute = λ n. "DNAttr";
  accepts = λ hfindex start len shown. true;
}

abbrev message : Option ℕ → Option ℕ → Option ℕ → MatterMessageRecord
message prev next exchange = record {
  frame_num = 1;
  fingerprint = 7;
  is_initiator = true;
  im_subscription = 0;
  acked_by_msg_rec = none;
  next_by_msg_cntr = none;
  prev_by_msg_cntr = none;
  next_by_exchange = next;
  prev_by_exchange = prev;
  case_exchange_rec = exchange;
}

-- A request with the exchange record 0, and its response.
abbrev exchange : Heap
exchange = record {
  made = 2;
  cell = λ q. if q == 0 then message none (some 1) (some 0) else message (some 0) none none;
}

-- A status report of the protocol 0 with no TLV data.
dissect_matter_common-Ends_example :
    Ends (dissect_matter_common host bytes_tvb (0 ∷ 0 ∷ 0 ∷ 0 ∷ 0 ∷ 0 ∷ 4 ∷ 0 ∷ []) 0x40 1 exchange)
dissect_matter_common-Ends_example =
    dissect_matter_common-Ends host bytes_tvb (0 ∷ 0 ∷ 0 ∷ 0 ∷ 0 ∷ 0 ∷ 4 ∷ 0 ∷ []) 0x40 1 exchange
      (omega arith)
      record {
        before = 0 ∷ [];
        after = [];
        backward = (refl, refl);
        forward = refl;
        before_made = omega arith;
        after_made = omega arith;
      }

abbrev no_newline : List ℕ → ℕ → Option ℕ
no_newline bytes needle = none

dissect_udc-Ends_example : Ends (dissect_udc host bytes_tvb no_newline (65 ∷ 66 ∷ []) 0)
dissect_udc-Ends_example = dissect_udc-Ends host bytes_tvb no_newline (65 ∷ 66 ∷ []) 0 (omega arith)

abbrev mac : List ℕ → List ℕ
mac bytes = length bytes ∷ 8 ∷ []

abbrev crypto : Crypto
crypto = record {
  md_size = λ md. 2;
  hash = λ md bytes. bytes;
  hmac = λ md key bytes. some (mac bytes);
}

hkdf_expand_lem_example :
    hkdf_expand crypto sha1 (5 ∷ []) (9 ∷ []) 5 ≡ some (take 5 (blocks mac (9 ∷ []) 0 3))
hkdf_expand_lem_example =
    hkdf_expand_lem crypto sha1 (5 ∷ []) (9 ∷ []) mac (λ bytes. refl) (λ bytes. refl) (omega arith)
      3 5 (omega arith) (omega arith) (omega arith)

abbrev five_bytes : hkdf_expand crypto sha1 (5 ∷ []) (9 ∷ []) 5 ≡ some (2 ∷ 8 ∷ 4 ∷ 8 ∷ 4 ∷ [])
five_bytes = hkdf_expand_lem_example

find_case_exchange_record_lem_example :
    find_case_exchange_record exchange 1 ≡ some (first_case exchange (1 ∷ 0 ∷ []))
find_case_exchange_record_lem_example =
    find_case_exchange_record_lem exchange 1 (0 ∷ []) (refl, refl) (omega arith)

abbrev setting : Setting
setting = record { host = host; tvb = bytes_tvb; crypto = crypto; trees = assoc_tree }

-- The record of a request whose public key is the generator.
abbrev begun : CaseExchangeRecord
begun = record {
  begin_req_msg = some 0;
  begin_resp_msg = none;
  key_confirm_msg = none;
  config = config1;
  curve_id = curve_prime192v1;
  key_id = 3;
  session_type = 1;
  req_ecdh_public_key = prime192v1_g;
  resp_ecdh_public_key = [];
  req_msg_hash = 1 ∷ 2 ∷ [];
  resp_msg_hash = [];
  recovered_session_key = none;
}

abbrev state : SecurityState setting
state = record { messages = exchange; cases_made = 1; cases = λ p. begun; keys = [] }

abbrev response : List ℕ
response = 0 ∷ 49 ∷ 0 ∷ 0 ∷ 0 ∷ 0 ∷ prime192v1_g

abbrev answered : CaseExchangeRecord
answered = responded setting 1 (take 49 (drop 6 response)) (take 55 response) (state.cases 0)

abbrev secret : List ℕ
secret = take 24 (drop 1 prime192v1_g)

-- With a hash that is the message itself.
abbrev key : MessageEncryptionKey
key = record {
  key_id = 3;
  session_type = 1;
  data_enc_key = 1 ∷ 8 ∷ 3 ∷ 8 ∷ 3 ∷ 8 ∷ 3 ∷ 8 ∷ 3 ∷ 8 ∷ 3 ∷ 8 ∷ 3 ∷ 8 ∷ 3 ∷ 8 ∷ [];
  src_node_id = 0;
}

secret_found : shared_secret answered ≡ some secret
unfolding shared_secret responded prime192v1_g is_curve_generator
secret_found = refl

key_derived : case_session_key crypto answered secret ≡ some key
unfolding case_session_key responded prime192v1_g hkdf_expand hkdf_extract compute_case_message_hash
    block_input
key_derived = refl

length_of_response : length response ≡ 55
unfolding prime192v1_g
length_of_response = refl

no_keys : NoRepeats (find_keys_by_id assoc_tree 3 [])
unfolding lookup_in find_keys_by_id
no_keys = tt

record_response_lem_example :
    (st' : SecurityState setting) × (record_response setting 1 response outer state 49 55 []
      ≡ gives st' [])
    × (is_some (find_same key (find_keys_by_id assoc_tree 3 st'.keys)) ≡ true)
    × ((st'.messages.cell 1).case_exchange_rec ≡ some 0)
record_response_lem_example =
    record_response_lem setting 1 0 response outer state 49 55 (0 ∷ []) secret key [] refl
      (refl, refl) (omega arith) refl (omega (arith, length_of_response))
      (omega (arith, length_of_response)) secret_found key_derived no_keys

dissect_matter_security-Ends_example : Ends (dissect_matter_security setting 11 1 response state)
dissect_matter_security-Ends_example =
    dissect_matter_security-Ends setting 11 1 response state (0 ∷ [])
      (omega (arith, length_of_response)) (refl, refl) (omega arith)

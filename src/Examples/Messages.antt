-- ===== src/Examples/Messages.antt =====
-- Messages of the interaction model, byte by byte.
use matter_dissector.Prelude.{
  ℕ, ◌≡◌, ◌≢◌, refl, true, false, ◌||◌, ◌==◌, if◌then◌else◌, Option, none, some, List, [], ◌∷◌,
  arith,
}
use matter_dissector.Tree.{Host, outer, write_request_write_requests}
use matter_dissector.Tlv.Types.{code, array, path, has_code}
use matter_dissector.Tlv.Reader.Container
use matter_dissector.Tlv.Reader.Values.{dup_string}
use matter_dissector.Tlv.Reader.Ends.{Ends}
use matter_dissector.Tlv.Reader.Advance.{Advance}
use matter_dissector.Tlv.Reader.Reads.{dup_string-Safe, InBlock}
use matter_dissector.Tracker.Records.{MatterMessageRecord, Heap}
use matter_dissector.Dissector.{TlvDissector, done, faulted}
use matter_dissector.Dissector.Elements.{pure}
use matter_dissector.Dissector.Safety.{Keeps}
use matter_dissector.Im.Names.{NameTables, is_matter_certificate_like_field_name}
use matter_dissector.Im.Values.{Decoder, Decoders}
use matter_dissector.Im.Messages.{list, add_entry}
use matter_dissector.Im.Dissect.{dissect_im}
use matter_dissector.Im.Subscription.{
  associate_with_im_subscription, Associated, associate_with_im_subscription_lem,
}
use matter_dissector.Im.Writes.{add_entry-list}
use matter_dissector.Im.Certificates.{add_decoded_matter_certificate}
use matter_dissector.Im.Safety.Fields.{is_decoded}
use matter_dissector.Im.Safety.Certificates.{add_decoded_matter_certificate-Keeps}
use matter_dissector.Im.Safety.Messages.{Returns, dissect_im-Returns}

abbrev host : Host
host = record {
  realloc = λ n. true;
  malloc = λ n. true;
  is_null = λ i. false;
  shows_point = λ f. true;
  unnamed_attribute = λ n. "DNAttr";
  accepts = λ hfindex start len shown. true;
}

-- What the results do not assume of a decoder: it reads outside of its value.
abbrev reads_outside : Decoder
reads_outside name value offset tree d = faulted

abbrev decoders : Decoders
decoders = record {
  certification_declaration_cms = reads_outside;
  x509_certificate = reads_outside;
  matter_certificate = reads_outside;
  attestation_elements = reads_outside;
  nocsr_elements = reads_outside;
}

abbrev tables : NameTables
tables = record {
  cluster_name_table = record { cluster_id = 6; name = "OnOff" } ∷ [];
  command_name_table = [];
  attribute_name_table = [];
  event_name_table = [];
  command_field_name_table = [];
  event_field_name_table = [];
  attribute_struct_field_name_table = [];
  attribute_enum_value_name_table = [];
}

-- A read request for attribute 0 of cluster 6 at endpoint 1.
abbrev read_request_bytes : List ℕ
read_request_bytes =
    0x15 ∷ 0x36 ∷ 0 ∷ 0x17 ∷ 0x24 ∷ 2 ∷ 1 ∷ 0x24 ∷ 3 ∷ 6 ∷ 0x24 ∷ 4 ∷ 0 ∷ 0x18 ∷ 0x18 ∷ 0x28 ∷ 3
    ∷ 0x24 ∷ 0xFF ∷ 11 ∷ 0x18 ∷ []

dissect_im-Returns_example : Returns 21 (dissect_im host decoders tables 2 read_request_bytes)
dissect_im-Returns_example =
    dissect_im-Returns host decoders tables 2 read_request_bytes refl (omega arith)

-- On an empty byte string with context tag 1, in front of the end of its container.
abbrev on_empty : TlvDissector
on_empty = record {
  reader = record {
    elem_tag = 0xFFFF_FFFF_0000_0001;
    elem_len_or_val = 0;
    buf_handle = 0;
    input = 0x18 ∷ [];
    len_read = 4;
    max_len = 5;
    container_type = code 0x15;
    control_byte = 0x30;
    container_open = false;
    implicit_profile_id = 0xFFFF_FFFF;
    app_data = 0;
    get_next_buffer = none;
  };
  source_buf_base_offset = 0;
  elem_start = 1;
  elem_len = 3;
  last_item = none;
  container_stack = [];
  container_stack_size = 16;
  calls = [];
  accepts = λ hfindex start len shown. true;
}

-- On an array.
abbrev on_array : TlvDissector
on_array = record on_empty { reader = record on_empty.reader { control_byte = 0x36 } }

is_array :
    (has_code (Container.get_type on_array.reader) array
      || has_code (Container.get_type on_array.reader) path)
    ≡ true
unfolding Container.get_type
is_array = refl

add_entry-list_example :
    add_entry host decoders tables false outer
      (list write_request_write_requests (λ tree. pure tt))
      on_array
    ≢ done tt on_empty
add_entry-list_example =
    add_entry-list host decoders tables outer write_request_write_requests (λ tree. pure tt)
      on_array on_empty is_array

-- Three messages of an exchange, of which the last has a subscription.
abbrev message : ℕ → Option ℕ → Option ℕ → MatterMessageRecord
message subscription next prev = record {
  frame_num = 1;
  fingerprint = 7;
  is_initiator = true;
  im_subscription = subscription;
  acked_by_msg_rec = none;
  next_by_msg_cntr = none;
  prev_by_msg_cntr = none;
  next_by_exchange = next;
  prev_by_exchange = prev;
  case_exchange_rec = none;
}

abbrev exchange : Heap
exchange = record {
  made = 3;
  cell = λ q.
      if q == 0
      then message 0 (some 1) none
      else if q == 1
      then message 0 (some 2) (some 0)
      else message 99 none (some 1);
}

associate_with_im_subscription_lem_example :
    (h' : Heap) × (associate_with_im_subscription 1 exchange ≡ some h')
    × Associated exchange 1 99 h'
associate_with_im_subscription_lem_example =
    associate_with_im_subscription_lem exchange 1 (0 ∷ []) (2 ∷ []) (refl, refl) (refl, refl)
      (omega arith) (omega arith)

dup_string-Safe_example :
    Ends
      (λ o s. Advance on_empty.reader s × InBlock 0 o)
      (λ _. Advance on_empty.reader)
      (dup_string (λ n. true) on_empty.reader)
dup_string-Safe_example =
    dup_string-Safe (λ n. true) on_empty.reader
      (record { fits = omega arith; bounded = omega arith }) (omega arith)

-- A certificate without a tag that holds the serial number 7 and the algorithm 1.
abbrev certificate_bytes : List ℕ
certificate_bytes = 0x15 ∷ 0x30 ∷ 1 ∷ 1 ∷ 7 ∷ 0x24 ∷ 2 ∷ 1 ∷ 0x18 ∷ []

unnamed : is_decoded "DNAttr" ≡ false
unfolding is_decoded is_matter_certificate_like_field_name
unnamed = refl

add_decoded_matter_certificate-Keeps_example :
    Keeps on_empty.reader
      (add_decoded_matter_certificate host decoders "NOCValue" certificate_bytes 4 outer on_empty)
add_decoded_matter_certificate-Keeps_example =
    add_decoded_matter_certificate-Keeps host decoders (λ k. unnamed) "NOCValue" certificate_bytes 4
      outer on_empty record { fits = omega arith; bounded = omega arith } (omega arith)

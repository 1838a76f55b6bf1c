-- ===== src/Im/Safety/Fields.antt =====
-- The paths, the values and the filters.
use matter_dissector.Prelude.{
  ℕ, Bool, true, false, List, Option, ◌≡◌, refl, ◌||◌, ltb, leb, ◌&&◌, if◌then◌else◌, arith,
}
use matter_dissector.Tree.{ProtoItem, Host, String}
use matter_dissector.Dissector.{Act}
use matter_dissector.Dissector.Safety.{SafeBelow, safe, chain, ask-Safe, pure-Safe, either-Safe}
use matter_dissector.Dissector.Shows.{
  reads, add_string_item-Safe, add_sub_tree_item-Safe, add_sub_tree_item_f-Safe,
  add_typed_item-Safe, add_generic_tlv_item-Safe,
}
use matter_dissector.Im.Names.{NameTables, equals, is_matter_certificate_like_field_name}
use matter_dissector.Im.Values.{
  Decoder, Decoders, run_decoder, add_decoded, add_named_command_value, add_named_field,
  add_named_attribute_struct_value, add_named_command_payload,
}
use matter_dissector.Im.Paths.{
  PathKind, PathIds, path_element, add_path, add_named_path_item, add_attribute_path_item,
  add_event_path_item, add_cluster_path_item, add_attribute_path_item_and_extract_ids,
  add_command_path_item_and_extract_ids,
}
use matter_dissector.Im.Fields.{
  add_status_ib, event_filter_element, add_event_filter_ib_item, unsigned_value,
  data_version_filter_element, add_data_version_filter_ib_item,
}

pub ruleset shows = (
  safe, reads, add_string_item-Safe, add_sub_tree_item-Safe, add_sub_tree_item_f-Safe,
  add_typed_item-Safe, add_generic_tlv_item-Safe,
)

-- A decoder ends without a read outside of the packet and leaves the reader valid.
abbrev pub DecoderSafe : Decoder → Type 0
DecoderSafe decoder =
    (n : ℕ) (field_name : String) (value : List ℕ) (value_offset : ℕ) (tree : ProtoItem)
    → SafeBelow n (decoder field_name value value_offset tree)

pub record DecodersSafe (decoders : Decoders) : Type 0 where
  pub certification_declaration_cms : DecoderSafe decoders.certification_declaration_cms
  pub x509_certificate : DecoderSafe decoders.x509_certificate
  pub matter_certificate : DecoderSafe decoders.matter_certificate
  pub attestation_elements : DecoderSafe decoders.attestation_elements
  pub nocsr_elements : DecoderSafe decoders.nocsr_elements

-- The names of fields whose values are decoded.
unfoldable pub is_decoded : String → Bool
is_decoded name =
    equals name "CertificationDeclaration"
    || (is_matter_certificate_like_field_name name
        || (equals name "AttestationElements" || equals name "NOCSRElements"))

not_taken : (a : Bool) {b : Bool} → b ≡ false → (a && b) ≡ false
not_taken true e = e
not_taken false e = refl

not_taken_between : (a : Bool) {b : Bool} (c : Bool) → b ≡ false → (a && b && c) ≡ false
not_taken_between true c e = rw e refl
not_taken_between false c e = refl

not_taken_after : (a b : Bool) {c : Bool} → c ≡ false → (a && b && c) ≡ false
not_taken_after true b e = not_taken b e
not_taken_after false b e = refl

-- A branch that is not taken.
skipped-Safe :
    {A : Type 0} {n : ℕ} (b : Bool) (m : Act A) {k : Act A}
    → b ≡ false
    → SafeBelow n k
    → SafeBelow n (if b then m else k)
skipped-Safe b m e q = rw e q

module _ {n : ℕ} where
  run_decoder-Safe :
      {decoder : Act (Unit {0})} → SafeBelow n decoder → SafeBelow n (run_decoder decoder)
  unfolding run_decoder
  run_decoder-Safe p = search safe

  module _ (host : Host) (decoders : Decoders) (field_name : String)
      (plain : is_decoded field_name ≡ false) where
    add_plain-Safe :
        (value_len : ℕ) (value : List ℕ) (tree : ProtoItem)
        → SafeBelow n (add_decoded host decoders field_name value_len value tree)
    unfolding add_decoded is_decoded
    add_plain-Safe value_len value tree =
        let declaration : equals field_name "CertificationDeclaration" ≡ false = ground arith in
        let certificate : is_matter_certificate_like_field_name field_name ≡ false = ground arith in
        let attestation : equals field_name "AttestationElements" ≡ false = ground arith in
        let nocsr : equals field_name "NOCSRElements" ≡ false = ground arith in
        chain (ask-Safe _) λ _. chain (ask-Safe _) λ elem_len.
          chain (skipped-Safe _ _ (not_taken (ltb 0 value_len) declaration) (pure-Safe tt)) λ _.
            chain
              (skipped-Safe _ _
                (not_taken_between (ltb 0 value_len) (leb value_len elem_len) certificate)
                (pure-Safe false))
              λ is_x509. either-Safe is_x509 (pure-Safe tt) (
                chain
                  (skipped-Safe _ _
                    (not_taken_after (ltb 0 value_len) (leb value_len elem_len) attestation)
                    (pure-Safe tt))
                  λ _.
                    skipped-Safe _ _
                      (not_taken_after (ltb 0 value_len) (leb value_len elem_len) nocsr)
                      (pure-Safe tt))

    -- Of a field with another name.
    pub add_plain_value-Safe :
        (tree : ProtoItem) → SafeBelow n (add_named_command_value host decoders tree field_name)
    unfolding add_named_command_value
    add_plain_value-Safe tree = search (shows, add_plain-Safe) depth 40

  module _ (host : Host) (decoders : Decoders) (ds : DecodersSafe decoders) where
    add_decoded-Safe :
        (field_name : String) (value_len : ℕ) (value : List ℕ) (tree : ProtoItem)
        → SafeBelow n (add_decoded host decoders field_name value_len value tree)
    unfolding add_decoded
    add_decoded-Safe field_name value_len value tree =
        search
          (
            safe, run_decoder-Safe, ds.certification_declaration_cms, ds.x509_certificate,
            ds.matter_certificate, ds.attestation_elements, ds.nocsr_elements,
          )
          depth 40

    pub add_named_command_value-Safe :
        (tree : ProtoItem) (field_name : String)
        → SafeBelow n (add_named_command_value host decoders tree field_name)
    unfolding add_named_command_value
    add_named_command_value-Safe tree field_name = search (shows, add_decoded-Safe) depth 40

    module _ (tables : NameTables) where
      pub add_named_field-Safe :
          (tree : ProtoItem) (name_of : ℕ → Option String)
          → SafeBelow n (add_named_field host decoders tables tree name_of)
      unfolding add_named_field
      add_named_field-Safe tree name_of = search (shows, add_named_command_value-Safe) depth 10

  path_element-Safe :
      (note : ℕ → ℕ → PathIds → PathIds) (ids : PathIds) → SafeBelow n (path_element note ids)
  unfolding path_element
  path_element-Safe note ids = search shows depth 20

  pub unsigned_value-Safe : (host : Host) → SafeBelow n (unsigned_value host)
  unfolding unsigned_value
  unsigned_value-Safe host = search shows depth 20

  event_filter_element-Safe :
      (host : Host) (item_tree : ProtoItem) → SafeBelow n (event_filter_element host item_tree)
  unfolding event_filter_element
  event_filter_element-Safe host item_tree = search shows depth 20

module _ {n : ℕ} (host : Host) where
  pub add_status_ib-Safe : (tree : ProtoItem) → SafeBelow n (add_status_ib host tree)
  unfolding add_status_ib
  add_status_ib-Safe tree = search shows depth 20

  pub add_event_filter_ib_item-Safe :
      (tree : ProtoItem) → SafeBelow n (add_event_filter_ib_item host tree)
  unfolding add_event_filter_ib_item
  add_event_filter_ib_item-Safe tree = search (shows, event_filter_element-Safe) depth 20

  module _ (decoders : Decoders) (ds : DecodersSafe decoders) (tables : NameTables) where
    pub add_named_attribute_struct_value-Safe :
        (tree : ProtoItem) (cluster_id attribute_id : ℕ)
        → SafeBelow n
            (add_named_attribute_struct_value host decoders tables tree cluster_id attribute_id)
    unfolding add_named_attribute_struct_value
    add_named_attribute_struct_value-Safe tree cluster_id attribute_id =
        search (shows, add_named_field-Safe) depth 20

    pub add_named_command_payload-Safe :
        (tree : ProtoItem) (cluster_id command_id : ℕ) (is_request : Bool)
        → SafeBelow n
            (add_named_command_payload host decoders tables tree cluster_id command_id is_request)
    unfolding add_named_command_payload
    add_named_command_payload-Safe tree cluster_id command_id is_request =
        search (shows, add_named_field-Safe) depth 20

module _ {n : ℕ} (tables : NameTables) (host : Host) where
  add_path-Safe :
      (kind : PathKind) (note : ℕ → ℕ → PathIds → PathIds) (tree : ProtoItem)
      → SafeBelow n (add_path tables host kind note tree)
  unfolding add_path
  add_path-Safe kind note tree = search (shows, path_element-Safe) depth 20

  pub add_named_path_item-Safe :
      (kind : PathKind) (tree : ProtoItem) → SafeBelow n (add_named_path_item tables host kind tree)
  unfolding add_named_path_item
  add_named_path_item-Safe kind tree = search (safe, add_path-Safe)

  pub add_attribute_path_item-Safe :
      (tree : ProtoItem) → SafeBelow n (add_attribute_path_item tables host tree)
  unfolding add_attribute_path_item
  add_attribute_path_item-Safe tree = add_named_path_item-Safe _ tree

  pub add_event_path_item-Safe :
      (tree : ProtoItem) → SafeBelow n (add_event_path_item tables host tree)
  unfolding add_event_path_item
  add_event_path_item-Safe tree = add_named_path_item-Safe _ tree

  add_cluster_path_item-Safe :
      (tree : ProtoItem) → SafeBelow n (add_cluster_path_item tables host tree)
  unfolding add_cluster_path_item
  add_cluster_path_item-Safe tree = add_named_path_item-Safe _ tree

  pub add_attribute_path_item_and_extract_ids-Safe :
      (tree : ProtoItem) (before : Option (ℕ × ℕ))
      → SafeBelow n (add_attribute_path_item_and_extract_ids tables host tree before)
  unfolding add_attribute_path_item_and_extract_ids
  add_attribute_path_item_and_extract_ids-Safe tree before = search (safe, add_path-Safe)

  pub add_command_path_item_and_extract_ids-Safe :
      (tree : ProtoItem) (before : Option (ℕ × ℕ))
      → SafeBelow n (add_command_path_item_and_extract_ids tables host tree before)
  unfolding add_command_path_item_and_extract_ids
  add_command_path_item_and_extract_ids-Safe tree before = search (safe, add_path-Safe)

  data_version_filter_element-Safe :
      (item_tree : ProtoItem) → SafeBelow n (data_version_filter_element host tables item_tree)
  unfolding data_version_filter_element
  data_version_filter_element-Safe item_tree =
      search (shows, add_cluster_path_item-Safe, unsigned_value-Safe) depth 20

pub add_data_version_filter_ib_item-Safe :
    {n : ℕ} (host : Host) (tables : NameTables) (tree : ProtoItem)
    → SafeBelow n (add_data_version_filter_ib_item host tables tree)
unfolding add_data_version_filter_ib_item
add_data_version_filter_ib_item-Safe host tables tree =
    search (shows, data_version_filter_element-Safe) depth 20

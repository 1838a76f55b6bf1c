-- ===== src/Im/Values.antt =====
-- packet-matter-im.cpp: `AddNamedCommandValue` and the two functions that add the fields of a structure by
-- their names. The decoders of certificates are parameters.
use matter_dissector.Prelude.{
  ℕ, ◌+◌, ◌-◌, ◌%◌, ◌^◌, Bool, true, false, ◌&&◌, ltb, leb, if◌then◌else◌, Option, List, [], ◌∷◌,
}
use matter_dissector.Tree.{
  String, ProtoItem, Text, text, chars, number, real, Host, im_common_field, im_common_unknown,
  data_elem_property_data, command_request_argument,
}
use matter_dissector.Tlv.Types.{
  int8, uint8, boolean_false, floating_point_number32, utf8_string_1byte_length,
  byte_string_1byte_length, null, structure, has_code,
}
use matter_dissector.Tlv.Reader.State.{unexpected_tlv_element}
use matter_dissector.Tlv.Reader.Values.{get_uint64, get_int64, get_bool, get_double, get_length}
use matter_dissector.Dissector.{Act}
use matter_dissector.Dissector.Strings.{data_bytes, duplicate}
use matter_dissector.Dissector.Elements.{
  ◌>>=◌, ◌>>◌, pure, fail, verify, look, ask, reading, get_type, attempt, by_option, by_context_tag,
  inside,
}
use matter_dissector.Dissector.Items.{add_string_item, add_sub_tree_item_f}
use matter_dissector.Dissector.Generic.{add_generic_tlv_item, is_container_type}
use matter_dissector.Im.Names.{
  NameTables, equals, is_matter_certificate_like_field_name, get_command_field_name_by_tag,
  get_attribute_struct_field_name_by_tag,
}

-- A decoder gets the name of the field, the value, the place of the value in the packet and the tree.
abbrev pub Decoder : Type 0
Decoder = String → List ℕ → ℕ → ProtoItem → Act (Unit {0})

-- `AddDecodedCertificationDeclarationCMS`, `AddDecodedX509Certificate`, `AddDecodedMatterCertificate`,
-- `AddDecodedAttestationElements` and `AddDecodedNOCSRElements`
pub record Decoders : Type 0 where
  pub certification_declaration_cms : Decoder
  pub x509_certificate : Decoder
  pub matter_certificate : Decoder
  pub attestation_elements : Decoder
  pub nocsr_elements : Decoder

-- A decoder's run, which answers whether it succeeded.
unfoldable pub run_decoder : Act (Unit {0}) → Act Bool
run_decoder decoder = attempt decoder >>= λ r. by_option r (λ _. pure true) (pure false)

module _ (host : Host) (decoders : Decoders) where
  -- What `AddNamedCommandValue` does with a byte string behind its line. A certificate that is decoded as
  -- X.509 ends the case.
  unfoldable pub add_decoded : String → ℕ → List ℕ → ProtoItem → Act (Unit {0})
  add_decoded field_name value_len value tree = do
    elem_start ← ask λ d. d.elem_start
    elem_len ← ask λ d. d.elem_len
    let value_offset = (elem_start + (elem_len + (2 ^ 32 - value_len)) % 2 ^ 32) % 2 ^ 32
    let run : Decoder → Act Bool =
        λ decoder. run_decoder (decoder field_name value value_offset tree)
    if ltb 0 value_len && equals field_name "CertificationDeclaration"
        then run decoders.certification_declaration_cms >>= (λ _. pure tt)
        else pure tt
    is_x509 ←
        (if ltb 0 value_len
            && is_matter_certificate_like_field_name field_name
            && leb value_len elem_len
          then run decoders.x509_certificate >>= (λ ok.
            if ok then pure true else run decoders.matter_certificate >>= (λ _. pure false))
          else pure false)
    if is_x509 then pure tt else (do
      if ltb 0 value_len && leb value_len elem_len && equals field_name "AttestationElements"
          then run decoders.attestation_elements >>= (λ _. pure tt)
          else pure tt
      if ltb 0 value_len && leb value_len elem_len && equals field_name "NOCSRElements"
          then run decoders.nocsr_elements >>= (λ _. pure tt)
          else pure tt)

  abbrev pub add_field : ProtoItem → String → Text → Act (Unit {0})
  add_field tree field_name value =
      add_string_item tree im_common_field (text field_name ∷ text "=" ∷ value)

  -- `AddNamedCommandValue`
  unfoldable pub add_named_command_value : ProtoItem → String → Act (Unit {0})
  add_named_command_value tree field_name = do
    type ← get_type
    if has_code type int8
        then (do value ← reading get_int64; add_field tree field_name (number "%ld" value ∷ []))
        else if has_code type uint8
        then (do value ← reading get_uint64; add_field tree field_name (number "%lu" value ∷ []))
        else if has_code type boolean_false
        then (do
          value ← reading get_bool
          add_field tree field_name (text (if value then "true" else "false") ∷ []))
        else if has_code type floating_point_number32
        then (do value ← reading get_double; add_field tree field_name (real "%g" value ∷ []))
        else if has_code type utf8_string_1byte_length
        then (do
          value ← duplicate host.malloc
          add_field tree field_name (text "\"" ∷ chars value ∷ text "\"" ∷ []))
        else if has_code type byte_string_1byte_length
        then (do
          value_len ← look get_length
          value ← data_bytes
          add_field tree field_name (text "[" ∷ number "%u" value_len ∷ text " bytes]" ∷ [])
          add_decoded field_name value_len value tree)
        else if has_code type null
        then add_field tree field_name (text "null" ∷ [])
        else if is_container_type type
        then (do
          add_field tree field_name []
          add_generic_tlv_item host tree im_common_unknown true)
        else fail unexpected_tlv_element

  module _ (tables : NameTables) where
    -- An element of a structure whose fields have names by their context tags.
    unfoldable pub add_named_field : ProtoItem → (ℕ → Option String) → Act (Unit {0})
    add_named_field tree name_of =
        by_context_tag
          (λ tag_num.
            by_option (name_of tag_num) (add_named_command_value tree)
              (add_generic_tlv_item host tree im_common_unknown false))
          (add_generic_tlv_item host tree im_common_unknown false)

    -- `AddNamedAttributeStructValue`
    unfoldable pub add_named_attribute_struct_value : ProtoItem → ℕ → ℕ → Act (Unit {0})
    add_named_attribute_struct_value tree cluster_id attribute_id = do
      type ← get_type
      verify (has_code type structure) unexpected_tlv_element
      value_tree ← add_sub_tree_item_f tree data_elem_property_data (text "Value" ∷ [])
      inside host.realloc
          (λ _.
            add_named_field value_tree
              (get_attribute_struct_field_name_by_tag tables cluster_id attribute_id))
          tt

    -- `AddNamedCommandPayload`
    unfoldable pub add_named_command_payload : ProtoItem → ℕ → ℕ → Bool → Act (Unit {0})
    add_named_command_payload tree cluster_id command_id is_request = do
      type ← get_type
      verify (has_code type structure) unexpected_tlv_element
      arg_tree ← add_sub_tree_item_f tree command_request_argument (text "Command Argument" ∷ [])
      inside host.realloc
          (λ _. add_named_field arg_tree (λ tag_num.
            get_command_field_name_by_tag tables cluster_id command_id tag_num is_request))
          tt

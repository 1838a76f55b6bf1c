-- ===== src/Security/Certificates.antt =====
-- packet-matter-security.cpp: the certificates, the references to them and the signatures.
use matter_dissector.Prelude.{ℕ, false, ◌==◌, if◌then◌else◌, [], ◌∷◌}
use matter_dissector.Tree.{ProtoItem, String, text, chars, number, Host, Field}
use matter_dissector.Tlv.Types.{
  code, uint8, utf8_string_1byte_length, byte_string_1byte_length, structure, path, has_code,
}
use matter_dissector.Tlv.Tags.{profile_tag, tag_num_from_tag}
use matter_dissector.Tlv.Reader.State.{unexpected_tlv_element}
use matter_dissector.Tlv.Reader.Values.{get_uint64}
use matter_dissector.Dissector.{Act}
use matter_dissector.Dissector.Moves.{next_expected}
use matter_dissector.Dissector.Strings.{duplicate}
use matter_dissector.Dissector.Elements.{
  ◌>>=◌, ◌>>◌, fail, verify, reading, get_type, get_tag, inside,
}
use matter_dissector.Dissector.Items.{add_typed_item, add_sub_tree_item, add_string_item}
use matter_dissector.Dissector.Generic.{add_generic_tlv_item}
use matter_dissector.Dissector.Lists.{add_list_item}
use matter_dissector.Names.{case_of, default_to}
use matter_dissector.Im.Paths.{is_path_like}
use matter_dissector.Common.Session.{context_number, expect}
use matter_dissector.Security.Fields.{
  cert_info_entity_cert, cert_info_entity_cert_ref, cert_info_related_certs_list,
  cert_info_trust_anchors_list, cert, cert_serial_number, cert_issuer, cert_issuer_attribute,
  cert_subject, cert_subject_attribute, cert_not_before, cert_not_after, cert_public_key_algorithm,
  cert_elliptic_curve_identifier, cert_elliptic_curve_public_key, cert_signature, cert_unknown,
  cert_ref, cert_ref_subject, cert_ref_public_session_id, ecdsa_sig_r, ecdsa_sig_s,
}

-- `kMatterProfile_Security`
abbrev pub profile_security : ℕ
profile_security = 0x1004

unfoldable pub get_cert_dn_attr_name : ℕ → String
get_cert_dn_attr_name attr_tag =
    default_to
      (case_of
        ((1, "CommonName")
          ∷ (2, "Surname")
          ∷ (3, "SerialNumber")
          ∷ (4, "CountryName")
          ∷ (5, "LocalityName")
          ∷ (6, "StateOrProvinceName")
          ∷ (7, "OrganizationName")
          ∷ (8, "OrganizationalUnitName")
          ∷ (9, "Title")
          ∷ (10, "Name")
          ∷ (11, "GivenName")
          ∷ (12, "Initials")
          ∷ (13, "GenerationQualifier")
          ∷ (14, "DNQualifier")
          ∷ (15, "Pseudonym")
          ∷ (16, "DomainComponent")
          ∷ (17, "NodeId")
          ∷ (18, "ServiceEndpointId")
          ∷ (19, "FabricId")
          ∷ (20, "SoftwarePublisherId")
          ∷ [])
        attr_tag)
      "UnknownAttr"

module _ (host : Host) where
  abbrev unknown : ProtoItem → Act (Unit {0})
  unknown tree = add_generic_tlv_item host tree cert_unknown false

  -- An attribute of `AddCertDN`.
  unfoldable pub dn_attribute : ProtoItem → Field → Act (Unit {0})
  dn_attribute dn_tree hf_attr = do
    tag ← get_tag
    type ← get_type
    let attr_name = get_cert_dn_attr_name (tag_num_from_tag tag)
    if has_code type utf8_string_1byte_length
        then (do
          val ← duplicate host.malloc
          add_string_item dn_tree hf_attr (text attr_name ∷ text ": " ∷ chars val ∷ []))
        else if has_code type uint8
        then (do
          val ← reading get_uint64
          add_string_item dn_tree hf_attr (
              text attr_name
              ∷ text ": 0x"
              ∷ number "%llX" val
              ∷ text " ("
              ∷ number "%llu" val
              ∷ text ")"
              ∷ []))
        else unknown dn_tree

  -- `AddCertDN`
  unfoldable pub add_cert_dn : ProtoItem → Field → Field → Act (Unit {0})
  add_cert_dn tree hf_container hf_attr = do
    type ← get_type
    verify (is_path_like type) unexpected_tlv_element
    dn_tree ← add_sub_tree_item tree hf_container
    inside host.realloc (λ _. dn_attribute dn_tree hf_attr) tt

  -- An element of `AddCert`.
  unfoldable pub cert_element : ProtoItem → ℕ → Act (Unit {0})
  cert_element cert_tree tag =
      if tag == 1
      then add_typed_item host cert_tree cert_serial_number
      else if tag == 3
      then add_cert_dn cert_tree cert_issuer cert_issuer_attribute
      else if tag == 6
      then add_cert_dn cert_tree cert_subject cert_subject_attribute
      else if tag == 4
      then add_typed_item host cert_tree cert_not_before
      else if tag == 5
      then add_typed_item host cert_tree cert_not_after
      else if tag == 7
      then add_typed_item host cert_tree cert_public_key_algorithm
      else if tag == 8
      then add_typed_item host cert_tree cert_elliptic_curve_identifier
      else if tag == 10
      then add_typed_item host cert_tree cert_elliptic_curve_public_key
      else if tag == 12
      then (do
        type ← get_type
        verify (has_code type structure) unexpected_tlv_element
        add_generic_tlv_item host cert_tree cert_signature false)
      else unknown cert_tree

  -- What the functions for structures share: a structure whose elements have context tags.
  unfoldable pub add_structure :
      ProtoItem → Field → (ProtoItem → ℕ → Act (Unit {0})) → Act (Unit {0})
  add_structure tree hfindex element = do
    type ← get_type
    verify (has_code type structure) unexpected_tlv_element
    sub_tree ← add_sub_tree_item tree hfindex
    inside host.realloc (λ _. context_number >>= element sub_tree) tt

  -- `AddCert`
  unfoldable pub add_cert : ProtoItem → Field → Act (Unit {0})
  add_cert tree hfindex = add_structure tree hfindex cert_element

  -- An element of `AddCertRef`.
  unfoldable pub cert_ref_element : ProtoItem → ℕ → Act (Unit {0})
  cert_ref_element cert_ref_tree tag =
      if tag == 1
      then (do
        type ← get_type
        verify (is_path_like type) unexpected_tlv_element
        add_cert_dn cert_ref_tree cert_ref_subject cert_subject_attribute)
      else if tag == 2
      then expect host cert_ref_tree byte_string_1byte_length cert_ref_public_session_id
      else unknown cert_ref_tree

  -- `AddCertRef`
  unfoldable pub add_cert_ref : ProtoItem → Field → Act (Unit {0})
  add_cert_ref tree hfindex = add_structure tree hfindex cert_ref_element

  -- `VerifyOrExit(type == ..., err = MATTER_ERROR_UNEXPECTED_TLV_ELEMENT)`
  unfoldable pub of_type : ℕ → Act (Unit {0}) → Act (Unit {0})
  of_type type_code m = do
    type ← get_type
    verify (has_code type type_code) unexpected_tlv_element
    m

  -- An element of `AddCertInfo`.
  unfoldable pub cert_info_element : ProtoItem → ℕ → Act (Unit {0})
  cert_info_element tree tag =
      if tag == 1
      then of_type structure (add_cert tree cert_info_entity_cert)
      else if tag == 2
      then of_type structure (add_cert_ref tree cert_info_entity_cert_ref)
      else if tag == 3
      then of_type path
          (add_list_item host tree cert_info_related_certs_list (λ t. add_cert t cert))
      else if tag == 4
      then of_type path
          (add_list_item host tree cert_info_trust_anchors_list (λ t. add_cert_ref t cert_ref))
      else fail unexpected_tlv_element

  -- An element of `AddECDSASig`.
  unfoldable pub ecdsa_sig_element : ProtoItem → ℕ → Act (Unit {0})
  ecdsa_sig_element tree tag =
      if tag == 1
      then expect host tree byte_string_1byte_length ecdsa_sig_r
      else if tag == 2
      then expect host tree byte_string_1byte_length ecdsa_sig_s
      else fail unexpected_tlv_element

  -- What `AddCertInfo` and `AddECDSASig` do with their TLV data: a structure with a tag of the profile.
  unfoldable pub add_profile_structure :
      ProtoItem → ℕ → Field → (ProtoItem → ℕ → Act (Unit {0})) → Act (Unit {0})
  add_profile_structure tree tag_num hfindex element = do
    next_expected (code structure) (profile_tag profile_security tag_num)
    sub_tree ← add_sub_tree_item tree hfindex
    inside host.realloc (λ _. context_number >>= element sub_tree) tt

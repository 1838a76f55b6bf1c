-- ===== src/Im/Certificates/Fields.antt =====
-- packet-matter-im.cpp: the fields of a certificate in Matter's own encoding.
use matter_dissector.Prelude.{
  ℕ, ◌+◌, ◌*◌, ◌/◌, ◌%◌, ◌^◌, ◌||◌, ◌==◌, ltb, if◌then◌else◌, Option, none, some, List, [], ◌∷◌,
  ◌++◌,
}
use matter_dissector.Tree.{
  String, ProtoItem, Piece, Text, text, number, Host, im_common_field, data_elem_property_data,
}
use matter_dissector.Tlv.Types.{int8, uint8, structure, array, path, has_code}
use matter_dissector.Tlv.Tags.{is_context_tag, is_profile_tag, tag_num_from_tag}
use matter_dissector.Tlv.Reader.State.{unexpected_tlv_element}
use matter_dissector.Tlv.Reader.Values.{get_uint64, get_int64}
use matter_dissector.Dissector.{Act}
use matter_dissector.Dissector.Elements.{
  ◌>>=◌, ◌>>◌, verify, reading, get_type, get_tag, or_else, by_context_tag, inside,
}
use matter_dissector.Dissector.Items.{add_string_item, add_sub_tree_item_f}
use matter_dissector.Im.Paths.{is_path_like}
use matter_dissector.Im.Values.{Decoders, add_named_command_value, add_field}
use matter_dissector.Im.Fields.{add_unknown}

unfoldable pub lookup_matter_cert_signature_algorithm_name : ℕ → Option String
lookup_matter_cert_signature_algorithm_name value =
    if value == 1 then some "ECDSAWithSHA256" else none

unfoldable pub lookup_matter_cert_public_key_algorithm_name : ℕ → Option String
lookup_matter_cert_public_key_algorithm_name value = if value == 1 then some "ECPublicKey" else none

unfoldable pub lookup_matter_cert_curve_name : ℕ → Option String
lookup_matter_cert_curve_name value = if value == 1 then some "prime256v1" else none

-- The name at a place of a list, counted from `first`.
abbrev pub name_at : ℕ → List String → ℕ → Option String
name_at first [] value = none
name_at first (s ∷ ss) value = if value == first then some s else name_at (first + 1) ss value

unfoldable pub lookup_matter_cert_extended_key_usage_name : ℕ → Option String
lookup_matter_cert_extended_key_usage_name = name_at 1 (
    "ServerAuth" ∷ "ClientAuth" ∷ "CodeSigning" ∷ "EmailProtection" ∷ "TimeStamping" ∷ "OCSPSigning"
    ∷ [])

abbrev pub dn_attr_names : List String
dn_attr_names =
    "Unspecified" ∷ "CommonName" ∷ "Surname" ∷ "SerialNumber" ∷ "CountryName" ∷ "LocalityName"
    ∷ "StateOrProvinceName" ∷ "OrganizationName" ∷ "OrganizationalUnitName" ∷ "Title" ∷ "Name"
    ∷ "GivenName" ∷ "Initials" ∷ "GenerationQualifier" ∷ "DNQualifier" ∷ "Pseudonym"
    ∷ "DomainComponent" ∷ "NodeId" ∷ "ServiceEndpointId" ∷ "FabricId" ∷ "SoftwarePublisherId"
    ∷ "CASEAuthTag" ∷ []

unfoldable pub get_cert_dn_attr_name_for_im : ℕ → Option String
get_cert_dn_attr_name_for_im = name_at 0 dn_attr_names

-- A value with what it means, if that is known.
abbrev with_name : Piece → Option String → Text
with_name shown none = shown ∷ []
with_name shown (some name) = shown ∷ text " (" ∷ text name ∷ text ")" ∷ []

-- The labels of the bits that are set, from the bit `bit` on, with `|` between them.
abbrev key_usage_labels : ℕ → ℕ → List String → Text → Text
key_usage_labels bit value [] labels = labels
key_usage_labels bit value (s ∷ ss) labels =
    key_usage_labels (bit * 2) value ss
      (if value / bit % 2 == 1 then add_label labels s else labels)
  where
    add_label : Text → String → Text
    add_label [] s = text s ∷ []
    add_label (p ∷ ps) s = (p ∷ ps) ++ (text "|" ∷ text s ∷ [])

abbrev key_usage_text : Piece → Text → Text
key_usage_text shown [] = shown ∷ []
key_usage_text shown (p ∷ ps) = (shown ∷ text " (" ∷ p ∷ ps) ++ (text ")" ∷ [])

abbrev key_usages : List String
key_usages =
    "digitalSignature" ∷ "nonRepudiation" ∷ "keyEncipherment" ∷ "dataEncipherment" ∷ "keyAgreement"
    ∷ "keyCertSign" ∷ "cRLSign" ∷ "encipherOnly" ∷ "decipherOnly" ∷ []

-- `IsContextTag(tag) || IsProfileTag(tag)`: by the number of such a tag, or what is done of another.
unfoldable pub by_tag_number : (ℕ → Act (Unit {0})) → Act (Unit {0}) → Act (Unit {0})
by_tag_number on_number other = do
  tag ← get_tag
  if is_context_tag tag || is_profile_tag tag then on_number (tag_num_from_tag tag) else other

module _ (host : Host) (decoders : Decoders) where
  -- What the two functions below share: an integer that is not negative is shown by `shown`.
  unfoldable pub add_cert_integer : ProtoItem → String → (ℕ → Text) → Act (Unit {0})
  add_cert_integer tree field_name shown = do
    type ← get_type
    if has_code type uint8
        then (do value ← reading get_uint64; add_field host decoders tree field_name (shown value))
        else if has_code type int8
        then (do
          value ← reading get_int64
          if ltb value (2 ^ 63)
              then add_field host decoders tree field_name (shown value)
              else add_field host decoders tree field_name (number "%ld" value ∷ []))
        else add_named_command_value host decoders tree field_name

  -- `AddMatterCertEnumOrRaw`
  unfoldable pub add_matter_cert_enum_or_raw :
      ProtoItem → String → (ℕ → Option String) → Act (Unit {0})
  add_matter_cert_enum_or_raw tree field_name lookup_name =
      add_cert_integer tree field_name (λ value. with_name (number "%lu" value) (lookup_name value))

  -- `AddMatterCertKeyUsage`
  unfoldable pub add_matter_cert_key_usage : ProtoItem → Act (Unit {0})
  add_matter_cert_key_usage tree =
      add_cert_integer tree "KeyUsage"
        (λ value. key_usage_text (number "%lu" value) (key_usage_labels 1 value key_usages []))

  abbrev pub or_name : Option String → String → String
  or_name none s = s
  or_name (some t) s = t

  -- `AddDecodedMatterCertificateDN`
  unfoldable pub add_decoded_matter_certificate_dn : ProtoItem → String → Act (Unit {0})
  add_decoded_matter_certificate_dn tree label = do
    type ← get_type
    verify (is_path_like type) unexpected_tlv_element
    dn_tree ← add_sub_tree_item_f tree data_elem_property_data (text label ∷ [])
    inside host.realloc
        (λ _.
          by_context_tag
            (λ attr_tag.
              or_else
                (add_named_command_value host decoders dn_tree (
                  or_name (get_cert_dn_attr_name_for_im (attr_tag % 2 ^ 7))
                    (host.unnamed_attribute (attr_tag % 2 ^ 7))))
                (add_unknown host dn_tree))
            (add_unknown host dn_tree))
        tt

  -- `AddDecodedMatterECDSASignature`
  unfoldable pub add_decoded_matter_ecdsa_signature : ProtoItem → Act (Unit {0})
  add_decoded_matter_ecdsa_signature tree = do
    type ← get_type
    verify (has_code type structure) unexpected_tlv_element
    sig_tree ← add_sub_tree_item_f tree data_elem_property_data (text "Signature" ∷ [])
    inside host.realloc
        (λ _.
          by_context_tag
            (λ tag_num.
              if tag_num == 1
              then or_else (add_named_command_value host decoders sig_tree "r")
                  (add_unknown host sig_tree)
              else if tag_num == 2
              then or_else (add_named_command_value host decoders sig_tree "s")
                  (add_unknown host sig_tree)
              else add_unknown host sig_tree)
            (add_unknown host sig_tree))
        tt

  -- The case of `BasicConstraints`.
  unfoldable pub add_basic_constraints : ProtoItem → Act (Unit {0})
  add_basic_constraints ext_tree = do
    type ← get_type
    if has_code type structure
        then (do
          bc_tree ←
              add_sub_tree_item_f ext_tree data_elem_property_data (text "BasicConstraints" ∷ [])
          inside host.realloc
              (λ _.
                by_tag_number
                  (λ inner_tag.
                    if inner_tag == 1
                    then add_named_command_value host decoders bc_tree "IsCA"
                    else if inner_tag == 2
                    then add_named_command_value host decoders bc_tree "PathLenConstraint"
                    else add_unknown host bc_tree)
                  (add_unknown host bc_tree))
              tt)
        else add_named_command_value host decoders ext_tree "BasicConstraints"

  abbrev add_usage : ProtoItem → Text → Act (Unit {0})
  add_usage eku_tree shown = add_string_item eku_tree im_common_field (text "Usage=" ∷ shown)

  -- An element of `ExtendedKeyUsage`.
  unfoldable pub extended_key_usage_element : ProtoItem → Act (Unit {0})
  extended_key_usage_element eku_tree = do
    type ← get_type
    if has_code type uint8
        then (do
          usage ← reading get_uint64
          add_usage eku_tree
              (with_name (number "%lu" usage) (lookup_matter_cert_extended_key_usage_name usage)))
        else if has_code type int8
        then (do
          usage ← reading get_int64
          if ltb usage (2 ^ 63)
              then add_usage eku_tree (
                  with_name (number "%ld" usage) (lookup_matter_cert_extended_key_usage_name usage))
              else add_usage eku_tree (number "%ld" usage ∷ []))
        else add_unknown host eku_tree

  -- The case of `ExtendedKeyUsage`.
  unfoldable pub add_extended_key_usage : ProtoItem → Act (Unit {0})
  add_extended_key_usage ext_tree = do
    type ← get_type
    if has_code type array || has_code type path
        then (do
          eku_tree ←
              add_sub_tree_item_f ext_tree data_elem_property_data (text "ExtendedKeyUsage" ∷ [])
          inside host.realloc (λ _. extended_key_usage_element eku_tree) tt)
        else add_named_command_value host decoders ext_tree "ExtendedKeyUsage"

  -- `AddDecodedMatterCertificateExtensions`
  unfoldable pub add_decoded_matter_certificate_extensions : ProtoItem → Act (Unit {0})
  add_decoded_matter_certificate_extensions tree = do
    type ← get_type
    verify (is_path_like type) unexpected_tlv_element
    ext_tree ← add_sub_tree_item_f tree data_elem_property_data (text "Extensions" ∷ [])
    inside host.realloc
        (λ _.
          by_tag_number
            (λ tag_num.
              if tag_num == 1
              then add_basic_constraints ext_tree
              else if tag_num == 2
              then add_matter_cert_key_usage ext_tree
              else if tag_num == 3
              then add_extended_key_usage ext_tree
              else if tag_num == 4
              then add_named_command_value host decoders ext_tree "AuthorityKeyIdentifier"
              else if tag_num == 5
              then add_named_command_value host decoders ext_tree "SubjectKeyIdentifier"
              else add_unknown host ext_tree)
            (add_unknown host ext_tree))
        tt

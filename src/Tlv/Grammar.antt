-- ===== src/Tlv/Grammar.antt =====
-- The encodings of TLV: an element is a value or a container of elements, and a container has an end mark.
use matter_dissector.Prelude.{
  ℕ, ◌^◌, ◌<◌, ◌≤◌, ◌≡◌, ◌≢◌, ◌==◌, if◌then◌else◌, List, [], ◌∷◌, ◌++◌, length,
}
use matter_dissector.Tlv.Types.{
  get_tlv_field_size, tlv_type_has_length, structure, array, path, null, end_of_container,
}
use matter_dissector.Tlv.Tags.{anonymous_tag, unknown_implicit_tag}
use matter_dissector.Tlv.Reader.Wire.{WireTag, anonymous, tag_value, TagInRange, FieldInRange}
use matter_dissector.Tlv.Reader.Heads.{encode_head}

mutual
  -- A value has a type, the number in its head, and the bytes of a string.
  pub data Element : Type 0 where
    value : WireTag → ℕ → ℕ → List ℕ → Element
    container : WireTag → ℕ → Elements → Element

  pub data Elements : Type 0 where
    nothing : Elements
    element : Element → Elements → Elements

-- What an encoding is made of.
pub data Token : Type 0 where
  single : WireTag → ℕ → ℕ → List ℕ → Token
  opens : WireTag → ℕ → Token
  closes : Token

abbrev pub token_bytes : Token → List ℕ
token_bytes (single w t v bytes) = encode_head w t v ++ bytes
token_bytes (opens w t) = encode_head w t 0
token_bytes closes = encode_head anonymous end_of_container 0

abbrev pub encode_tokens : List Token → List ℕ
encode_tokens [] = []
encode_tokens (k ∷ ks) = token_bytes k ++ encode_tokens ks

abbrev mutual
  -- The tokens of an element and of what is in a container, in front of others.
  pub element_tokens : Element → List Token → List Token
  element_tokens (value w t v bytes) ks = single w t v bytes ∷ ks
  element_tokens (container w t es) ks = opens w t ∷ elements_tokens es (closes ∷ ks)

  pub elements_tokens : Elements → List Token → List Token
  elements_tokens nothing ks = ks
  elements_tokens (element e es) ks = element_tokens e (elements_tokens es ks)

-- The bytes of what is in a container, with its end mark.
abbrev pub encode_elements : Elements → List ℕ
encode_elements es = encode_tokens (elements_tokens es (closes ∷ []))

-- The head of a value, with the bytes of a string.
pub record IsValue (w : WireTag) (t v : ℕ) (bytes : List ℕ) : Type 0 where
  pub tag_in_range : TagInRange w
  pub field_in_range : FieldInRange (get_tlv_field_size t) v
  pub type : t ≤ null
  pub known : tag_value w ≢ unknown_implicit_tag
  pub string : if tlv_type_has_length t then v ≡ length bytes else bytes ≡ []
  pub short : length bytes < 2 ^ 32

pub record IsContainer (w : WireTag) (t : ℕ) : Type 0 where
  pub tag_in_range : TagInRange w
  pub lowest : structure ≤ t
  pub highest : t ≤ path
  pub known : tag_value w ≢ unknown_implicit_tag

-- The elements of an array have no tags, those of a structure and of a path have.
abbrev pub TagSuits : ℕ → WireTag → Type 0
TagSuits c w = if c == array then tag_value w ≡ anonymous_tag else tag_value w ≢ anonymous_tag

abbrev mutual
  -- An element in a container of type `c`.
  pub IsElement : ℕ → Element → Type 0
  IsElement c (value w t v bytes) = IsValue w t v bytes × TagSuits c w
  IsElement c (container w t es) = IsContainer w t × TagSuits c w × AreElements t es

  pub AreElements : ℕ → Elements → Type 0
  AreElements c nothing = Unit
  AreElements c (element e es) = IsElement c e × AreElements c es

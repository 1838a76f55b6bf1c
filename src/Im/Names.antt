-- ===== src/Im/Names.antt =====
-- packet-matter-im.cpp: the tables of names, which a build step generates, and the searches in them.
use text.Mathlib.Text
use Prim.Native.Char.{code}
use matter_dissector.Prelude.{
  ℕ, Bool, true, false, not, ◌&&◌, ◌||◌, ◌==◌, if◌then◌else◌, Option, none, some, List, [], ◌∷◌,
}
use matter_dissector.Tree.{String}

pub record ClusterNameEntry : Type 0 where
  pub cluster_id : ℕ
  pub name : String

pub record ScopedNameEntry : Type 0 where
  pub cluster_id : ℕ
  pub id : ℕ
  pub name : String

pub record CommandFieldNameEntry : Type 0 where
  pub cluster_id : ℕ
  pub command_id : ℕ
  pub tag : ℕ
  pub is_request : Bool
  pub name : String

pub record EventFieldNameEntry : Type 0 where
  pub cluster_id : ℕ
  pub event_id : ℕ
  pub tag : ℕ
  pub name : String

pub record AttributeStructFieldNameEntry : Type 0 where
  pub cluster_id : ℕ
  pub attribute_id : ℕ
  pub tag : ℕ
  pub name : String

pub record AttributeEnumValueNameEntry : Type 0 where
  pub cluster_id : ℕ
  pub attribute_id : ℕ
  pub value : ℕ
  pub name : String

-- The tables of im_name_tables.inc.
pub record NameTables : Type 0 where
  pub cluster_name_table : List ClusterNameEntry
  pub command_name_table : List ScopedNameEntry
  pub attribute_name_table : List ScopedNameEntry
  pub event_name_table : List ScopedNameEntry
  pub command_field_name_table : List CommandFieldNameEntry
  pub event_field_name_table : List EventFieldNameEntry
  pub attribute_struct_field_name_table : List AttributeStructFieldNameEntry
  pub attribute_enum_value_name_table : List AttributeEnumValueNameEntry

-- The loop of each search: the name of the first entry that passes the test.
unfoldable pub first_name : {E : Type 0} → (E → Bool) → (E → String) → List E → Option String
first_name test name [] = none
first_name test name (e ∷ es) = if test e then some (name e) else first_name test name es

unfoldable pub find_scoped_name : List ScopedNameEntry → ℕ → ℕ → Option String
unfolding first_name
find_scoped_name table cluster_id id =
    first_name (λ e. (e.cluster_id == cluster_id) && (e.id == id)) (λ e. e.name) table

module _ (tables : NameTables) where
  unfoldable pub get_cluster_name_by_id : ℕ → Option String
  unfolding first_name
  get_cluster_name_by_id cluster_id =
      first_name (λ e. e.cluster_id == cluster_id) (λ e. e.name) tables.cluster_name_table

  unfoldable pub get_command_name_by_id : ℕ → ℕ → Option String
  unfolding find_scoped_name
  get_command_name_by_id cluster_id command_id =
      find_scoped_name tables.command_name_table cluster_id command_id

  unfoldable pub get_attribute_name_by_id : ℕ → ℕ → Option String
  unfolding find_scoped_name
  get_attribute_name_by_id cluster_id attribute_id =
      find_scoped_name tables.attribute_name_table cluster_id attribute_id

  unfoldable pub get_event_name_by_id : ℕ → ℕ → Option String
  unfolding find_scoped_name
  get_event_name_by_id cluster_id event_id =
      find_scoped_name tables.event_name_table cluster_id event_id

  abbrev same : Bool → Bool → Bool
  same true b = b
  same false b = not b

  unfoldable pub get_command_field_name_by_tag : ℕ → ℕ → ℕ → Bool → Option String
  unfolding first_name
  get_command_field_name_by_tag cluster_id command_id tag is_request =
      first_name
        (λ e.
          (e.cluster_id == cluster_id)
          && (e.command_id == command_id)
          && (e.tag == tag)
          && same e.is_request is_request)
        (λ e. e.name) tables.command_field_name_table

  unfoldable pub get_event_field_name_by_tag : ℕ → ℕ → ℕ → Option String
  unfolding first_name
  get_event_field_name_by_tag cluster_id event_id tag =
      first_name (λ e. (e.cluster_id == cluster_id) && (e.event_id == event_id) && (e.tag == tag))
        (λ e. e.name) tables.event_field_name_table

  unfoldable pub get_attribute_struct_field_name_by_tag : ℕ → ℕ → ℕ → Option String
  unfolding first_name
  get_attribute_struct_field_name_by_tag cluster_id attribute_id tag =
      first_name
        (λ e. (e.cluster_id == cluster_id) && (e.attribute_id == attribute_id) && (e.tag == tag))
        (λ e. e.name) tables.attribute_struct_field_name_table

  unfoldable pub get_attribute_enum_value_name : ℕ → ℕ → ℕ → Option String
  unfolding first_name
  get_attribute_enum_value_name cluster_id attribute_id value =
      first_name
        (λ e.
          (e.cluster_id == cluster_id) && (e.attribute_id == attribute_id) && (e.value == value))
        (λ e. e.name) tables.attribute_enum_value_name_table

-- The code points of a name.
abbrev codes : String → List ℕ
codes String.[] = []
codes (String.◌∷◌ c s) = code c ∷ codes s

abbrev is_prefix : List ℕ → List ℕ → Bool
is_prefix [] ys = true
is_prefix (x ∷ xs) [] = false
is_prefix (x ∷ xs) (y ∷ ys) = (x == y) && is_prefix xs ys

-- `name.find(...) != std::string::npos`
abbrev occurs : List ℕ → List ℕ → Bool
occurs xs [] = is_prefix xs []
occurs xs (y ∷ ys) = is_prefix xs (y ∷ ys) || occurs xs ys

-- `strcmp(a, b) == 0`
abbrev pub equals : String → String → Bool
equals a b = Text.◌==◌ a b

-- `IsMatterCertificateLikeFieldName`, of a name that is not null.
unfoldable pub is_matter_certificate_like_field_name : String → Bool
is_matter_certificate_like_field_name name =
    not (equals name "CertificationDeclaration")
    && (occurs (codes "Certificate") (codes name)
        || equals name "NOCValue"
        || equals name "ICACValue"
        || equals name "RCACValue")

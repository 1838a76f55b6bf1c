-- ===== src/Im/Paths.antt =====
-- packet-matter-im.cpp: the paths of commands, attributes, events and clusters.
use matter_dissector.Prelude.{
  ℕ, ◌%◌, ◌^◌, Bool, true, false, not, ◌&&◌, ◌||◌, ◌==◌, if◌then◌else◌, Option, none, some, [], ◌∷◌,
  ◌++◌,
}
use matter_dissector.Tree.{String, ProtoItem, Text, text, id_text, Host, data_elem_property_path}
use matter_dissector.Tlv.Types.{TlvType, uint8, structure, path, has_code}
use matter_dissector.Tlv.Tags.{is_context_tag, tag_num_from_tag}
use matter_dissector.Tlv.Reader.State.{unexpected_tlv_element}
use matter_dissector.Tlv.Reader.Values.{get_uint64}
use matter_dissector.Dissector.{Act}
use matter_dissector.Dissector.Elements.{
  ◌>>=◌, ◌>>◌, pure, verify, reading, get_type, get_tag, inside,
}
use matter_dissector.Dissector.Items.{add_string_item}
use matter_dissector.Im.Names.{
  NameTables, get_cluster_name_by_id, get_command_name_by_id, get_attribute_name_by_id,
  get_event_name_by_id,
}

pub data PathKind : Type 0 where
  command attribute event cluster : PathKind

-- The parts of a path that are present.
pub record PathIds : Type 0 where
  pub endpoint : Option ℕ
  pub cluster : Option ℕ
  pub item : Option ℕ

abbrev pub no_ids : PathIds
no_ids = record { endpoint = none; cluster = none; item = none }

-- `endpointTag`, `clusterTag`, `itemTag` and `itemLabel`
pub record PathTags : Type 0 where
  pub endpoint : ℕ
  pub cluster : ℕ
  pub item : ℕ
  pub label : String

-- The switch on the kind. The tag of an item that a kind does not have is 0xFFFFFFFF.
unfoldable pub path_tags : PathKind → PathTags
path_tags command = record { endpoint = 0; cluster = 1; item = 2; label = "Command" }
path_tags attribute = record { endpoint = 2; cluster = 3; item = 4; label = "Attribute" }
path_tags event = record { endpoint = 1; cluster = 2; item = 3; label = "Event" }
path_tags cluster = record { endpoint = 1; cluster = 2; item = 0xFFFF_FFFF; label = "Cluster" }

abbrev pub is_path_like : TlvType → Bool
is_path_like type = has_code type path || has_code type structure

abbrev pub is_some : Option ℕ → Bool
is_some none = false
is_some (some _) = true

-- The assignments in the loop of `AddNamedPathItem`: the first value of each part counts.
unfoldable pub note_first : PathTags → ℕ → ℕ → PathIds → PathIds
note_first tags tag_num value ids =
    if not (is_some ids.endpoint) && (tag_num == tags.endpoint)
    then record ids { endpoint = some (value % 2 ^ 32) }
    else if not (is_some ids.cluster) && (tag_num == tags.cluster)
    then record ids { cluster = some (value % 2 ^ 32) }
    else if not (is_some ids.item) && not (tags.item == 0xFFFF_FFFF) && (tag_num == tags.item)
    then record ids { item = some (value % 2 ^ 32) }
    else ids

-- The assignments in the loops of the functions that extract ids: the last value of each part counts.
unfoldable pub note_last : PathTags → ℕ → ℕ → PathIds → PathIds
note_last tags tag_num value ids =
    if tag_num == tags.endpoint
    then record ids { endpoint = some (value % 2 ^ 32) }
    else if tag_num == tags.cluster
    then record ids { cluster = some (value % 2 ^ 32) }
    else if tag_num == tags.item
    then record ids { item = some (value % 2 ^ 32) }
    else ids

-- A round of the loops: an element that is not an unsigned integer with a context tag is left out.
unfoldable pub path_element : (ℕ → ℕ → PathIds → PathIds) → PathIds → Act PathIds
path_element note ids = do
  tag ← get_tag
  type ← get_type
  if not (is_context_tag tag) || not (has_code type uint8)
      then pure ids
      else (do value ← reading get_uint64; pure (note (tag_num_from_tag tag) value ids))

abbrev pub value_or_zero : Option ℕ → ℕ
value_or_zero none = 0
value_or_zero (some n) = n

-- `out.empty() ? "" : ", "`
abbrev separator : Text → String
separator [] = ""
separator (_ ∷ _) = ", "

-- A part with its name and, after the buffer, the closing parenthesis of the name.
abbrev named_part : ℕ → Text → String → ℕ → Option String → Text
named_part size out label id none = out ++ (id_text size (separator out) label id none ∷ [])
named_part size out label id (some name) =
    out ++ (id_text size (separator out) label id (some name) ∷ text ")" ∷ [])

module _ (tables : NameTables) where
  unfoldable pub item_name : PathKind → ℕ → ℕ → Option String
  item_name command cluster_id item_id = get_command_name_by_id tables cluster_id item_id
  item_name attribute cluster_id item_id = get_attribute_name_by_id tables cluster_id item_id
  item_name event cluster_id item_id = get_event_name_by_id tables cluster_id item_id
  item_name cluster cluster_id item_id = get_event_name_by_id tables cluster_id item_id

  abbrev endpoint_text : Option ℕ → Text
  endpoint_text none = []
  endpoint_text (some id) = id_text 48 "" "Endpoint" id none ∷ []

  abbrev cluster_text : Option ℕ → Text → Text
  cluster_text none out = out
  cluster_text (some id) out = named_part 96 out "Cluster" id (get_cluster_name_by_id tables id)

  abbrev item_text : PathKind → String → ℕ → Option ℕ → Text → Text
  item_text kind label cluster_id none out = out
  item_text kind label cluster_id (some id) out =
      named_part 128 out label id (item_name kind cluster_id id)

  -- The text of a path; a cluster that is not present counts as cluster 0 for the name of the item.
  unfoldable pub path_text : PathKind → PathIds → Text
  unfolding path_tags item_name
  path_text kind ids =
      item_text kind (path_tags kind).label (value_or_zero ids.cluster) ids.item
        (cluster_text ids.cluster (endpoint_text ids.endpoint))

  module _ (host : Host) where
    -- What the three functions for paths share: the loop over the parts, and the line that shows them.
    unfoldable pub add_path : PathKind → (ℕ → ℕ → PathIds → PathIds) → ProtoItem → Act PathIds
    add_path kind note tree = do
      type ← get_type
      verify (is_path_like type) unexpected_tlv_element
      ids ← inside host.realloc (path_element note) no_ids
      verify (is_some ids.endpoint || is_some ids.cluster || is_some ids.item)
          unexpected_tlv_element
      add_string_item tree data_elem_property_path (path_text kind ids)
      pure ids

    -- `AddNamedPathItem`
    unfoldable pub add_named_path_item : PathKind → ProtoItem → Act (Unit {0})
    add_named_path_item kind tree =
        add_path kind (note_first (path_tags kind)) tree >>= λ _. pure tt

    -- `AddAttributePathItem`, `AddEventPathItem` and `AddClusterPathItem`
    unfoldable pub add_attribute_path_item : ProtoItem → Act (Unit {0})
    add_attribute_path_item = add_named_path_item attribute

    unfoldable pub add_event_path_item : ProtoItem → Act (Unit {0})
    add_event_path_item = add_named_path_item event

    unfoldable pub add_cluster_path_item : ProtoItem → Act (Unit {0})
    add_cluster_path_item = add_named_path_item cluster

    -- `clusterId`, `attributeId` and `found` as one: the ids when both are present, and else those from
    -- before.
    abbrev pub found_ids : PathIds → Option (ℕ × ℕ) → Option (ℕ × ℕ)
    found_ids ids before = both ids.cluster ids.item
      where
        both : Option ℕ → Option ℕ → Option (ℕ × ℕ)
        both (some c) (some i) = some (c, i)
        both _ _ = before

    -- `AddAttributePathItemAndExtractIds`
    unfoldable pub add_attribute_path_item_and_extract_ids :
        ProtoItem → Option (ℕ × ℕ) → Act (Option (ℕ × ℕ))
    add_attribute_path_item_and_extract_ids tree before =
        add_path attribute (note_last (path_tags attribute)) tree >>= λ ids.
        pure (found_ids ids before)

    -- `AddCommandPathItemAndExtractIds`
    unfoldable pub add_command_path_item_and_extract_ids :
        ProtoItem → Option (ℕ × ℕ) → Act (Option (ℕ × ℕ))
    add_command_path_item_and_extract_ids tree before =
        add_path command (note_last (path_tags command)) tree >>= λ ids. pure (found_ids ids before)

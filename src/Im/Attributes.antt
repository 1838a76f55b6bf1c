-- ===== src/Im/Attributes.antt =====
-- packet-matter-im.cpp: attribute data, attribute statuses and attribute reports. The three functions for
-- them call themselves: the call is a parameter of the body, and a level of nesting takes a byte at least.
use matter_dissector.Prelude.{ℕ, zero, suc, Bool, true, false, ◌&&◌, ◌||◌, ◌==◌, if◌then◌else◌}
use matter_dissector.Tlv.Types.{uint8, structure, has_code, TlvType}
use matter_dissector.Tlv.Tags.{is_context_tag, tag_num_from_tag}
use matter_dissector.Dissector.{unfinished, Act}
use matter_dissector.Dissector.Moves
use matter_dissector.Dissector.Moves.{enter_container, exit_container}
use matter_dissector.Dissector.Elements.{
  ◌>>=◌, pure, get_type, get_tag, attempt, by_option, remaining,
}
use matter_dissector.Im.Paths.{is_path_like}

pub data AttributeIbKind : Type 0 where
  unknown data_kind status_kind : AttributeIbKind

-- The flags of `DetectAttributeIBKind`.
pub record KindFlags : Type 0 where
  pub has_tag2 : Bool
  pub has_tag0_unsigned : Bool
  pub has_tag0_path_like : Bool
  pub has_tag1_path_like : Bool
  pub has_tag1_struct : Bool

abbrev no_flags : KindFlags
no_flags = record {
  has_tag2 = false;
  has_tag0_unsigned = false;
  has_tag0_path_like = false;
  has_tag1_path_like = false;
  has_tag1_struct = false;
}

unfoldable pub note_kind : ℕ → TlvType → KindFlags → KindFlags
note_kind tag_num type flags =
    if tag_num == 2
    then record flags { has_tag2 = true }
    else if tag_num == 0
    then record flags {
      has_tag0_unsigned = flags.has_tag0_unsigned || has_code type uint8;
      has_tag0_path_like = flags.has_tag0_path_like || is_path_like type;
    }
    else if tag_num == 1
    then record flags {
      has_tag1_path_like = flags.has_tag1_path_like || is_path_like type;
      has_tag1_struct = flags.has_tag1_struct || has_code type structure;
    }
    else flags

unfoldable pub kind_of_flags : KindFlags → AttributeIbKind
kind_of_flags flags =
    if flags.has_tag2 || (flags.has_tag0_unsigned && flags.has_tag1_path_like)
    then data_kind
    else if flags.has_tag0_path_like && flags.has_tag1_struct
    then status_kind
    else unknown

-- The loop of `DetectAttributeIBKind` keeps the flags when an error ends it: they are collected by
-- rounds that stand at the end of the loop or at an error.
unfoldable pub kind_loop : ℕ → KindFlags → Act KindFlags
kind_loop zero flags d = unfinished
kind_loop (suc fuel) flags d =
    (attempt Moves.next >>= λ moved.
    by_option moved
      (λ _. do
        tag ← get_tag
        type ← get_type
        kind_loop fuel
            (if is_context_tag tag then note_kind (tag_num_from_tag tag) type flags else flags))
      (pure flags))
      d

-- `DetectAttributeIBKind`. The inspection moves the reader past the structure.
unfoldable pub detect_attribute_ib_kind : (ℕ → Bool) → Act AttributeIbKind
detect_attribute_ib_kind realloc = do
  type ← get_type
  if has_code type structure
      then (do
        entered ← attempt (enter_container realloc)
        by_option entered
            (λ _. do
              flags ← λ d. kind_loop (suc (remaining d)) no_flags d
              attempt exit_container >>= (λ _. pure (kind_of_flags flags)))
            (pure unknown))
      else pure unknown

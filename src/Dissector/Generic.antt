-- ===== src/Dissector/Generic.antt =====
-- TLVDissector.cpp: `AddGenericTLVItem`, which shows an element of any type as text. The text buffer is
-- `none` while `strBuf` is NULL; `realloc` is taken to give `AppendStringF` the memory that it asks for.
use matter_dissector.Prelude.{
  ℕ, zero, suc, ◌+◌, Bool, true, false, ◌||◌, if◌then◌else◌, Option, none, some, List, [], ◌∷◌,
  ◌++◌,
}
use matter_dissector.Tree.{String, ProtoItem, Text, text, escaped, number, real, Field, Host}
use matter_dissector.Tlv.Types.{
  TlvType, int8, uint8, boolean_false, floating_point_number32, utf8_string_1byte_length,
  byte_string_1byte_length, null, structure, array, path, has_code,
}
use matter_dissector.Tlv.Tags.{
  is_context_tag, is_profile_tag, tag_num_from_tag, profile_id_from_tag,
}
use matter_dissector.Tlv.Reader.State.{unexpected_tlv_element}
use matter_dissector.Tlv.Reader.Values.{get_uint64, get_int64, get_bool, get_double, FloatBits}
use matter_dissector.Dissector.{unfinished, crashed, done, Act}
use matter_dissector.Dissector.Strings.{data_bytes, duplicate}
use matter_dissector.Dissector.Elements.{
  ◌>>=◌, ◌>>◌, reading, pure, fail, get_type, get_tag, remaining, inside,
}
use matter_dissector.Dissector.Items.{add_string_item, add_string_item_with_header}

abbrev pub StrBuf : Type 0
StrBuf = Option Text

-- `AppendStringF`
unfoldable pub append_string_f : Text → StrBuf → StrBuf
append_string_f t none = some t
append_string_f t (some s) = some (s ++ t)

-- `AppendRepeated`
unfoldable pub append_repeated : Text → ℕ → StrBuf → StrBuf
unfolding append_string_f
append_repeated s zero buf = buf
append_repeated s (suc n) buf = append_repeated s n (append_string_f s buf)

-- `%s` of the buffer, where the C library shows a null pointer as "(null)".
unfoldable pub shown : StrBuf → Text
shown none = text "(null)" ∷ []
shown (some t) = t

-- `strBuf[0] = 0`
unfoldable pub reset : StrBuf → Act (Unit {0})
reset none d = crashed
reset (some t) d = done tt d

-- The indentation and the tag in front of the value. The format of a profile tag ends in `":d = "`, since
-- the source has `PRId32` there without `%`.
unfoldable pub header : Bool → Bool → ℕ → ℕ → StrBuf
unfolding append_string_f append_repeated is_context_tag is_profile_tag tag_num_from_tag
    profile_id_from_tag
header suppress_tag suppress_header indent_level tag =
    let buf =
      if suppress_header then append_repeated (text "    " ∷ []) indent_level none else none in
    if suppress_tag
    then buf
    else if is_context_tag tag
    then append_string_f (number "%d" (tag_num_from_tag tag) ∷ text " = " ∷ []) buf
    else if is_profile_tag tag
    then append_string_f (number "%08X" (profile_id_from_tag tag) ∷ text ":d = " ∷ []) buf
    else buf

-- The loop over the bytes of a byte string.
unfoldable pub append_bytes : List ℕ → StrBuf → StrBuf
unfolding append_string_f
append_bytes [] buf = buf
append_bytes (b ∷ bs) buf = append_bytes bs (append_string_f (number " %02x" b ∷ []) buf)

abbrev pub is_container_type : TlvType → Bool
is_container_type type = has_code type structure || has_code type array || has_code type path

abbrev pub close_char : TlvType → String
close_char type =
    if has_code type structure
    then "}"
    else if has_code type array
    then "]"
    else if has_code type path
    then ">"
    else " "

module _ (host : Host) where
  abbrev float_text : FloatBits → Text
  float_text val =
      if host.shows_point val then real "%.17g" val ∷ [] else real "%.17g" val ∷ text ".0" ∷ []

  -- The switch on the type: the buffer with the value, or with what opens a container.
  unfoldable pub append_value : TlvType → StrBuf → Act StrBuf
  append_value type buf =
      if has_code type int8
      then (do val ← reading get_int64; pure (append_string_f (number "%ld" val ∷ []) buf))
      else if has_code type uint8
      then (do val ← reading get_uint64; pure (append_string_f (number "%lu" val ∷ []) buf))
      else if has_code type boolean_false
      then (do
        val ← reading get_bool
        pure (append_string_f (text (if val then "true" else "false") ∷ []) buf))
      else if has_code type floating_point_number32
      then (do val ← reading get_double; pure (append_string_f (float_text val) buf))
      else if has_code type utf8_string_1byte_length
      then (do val ← duplicate host.malloc; pure (append_string_f (escaped val ∷ []) buf))
      else if has_code type byte_string_1byte_length
      then (do bytes ← data_bytes; pure (append_bytes bytes buf))
      else if has_code type null
      then pure (append_string_f (text "null" ∷ []) buf)
      else if has_code type structure
      then pure (append_string_f (text "{" ∷ []) buf)
      else if has_code type array
      then pure (append_string_f (text "[" ∷ []) buf)
      else if has_code type path
      then pure (append_string_f (text "<" ∷ []) buf)
      else fail unexpected_tlv_element

  -- The body of `AddGenericTLVItem`, with its call for an element of a container as `nested`.
  unfoldable pub generic_item :
      Act (Unit {0}) → ProtoItem → Field → Bool → Bool → ℕ → Act (Unit {0})
  generic_item nested tree hfindex suppress_tag suppress_header indent_level = do
    type ← get_type
    tag ← get_tag
    buf ← append_value type (header suppress_tag suppress_header indent_level tag)
    if suppress_header
        then add_string_item_with_header tree hfindex (shown buf)
        else add_string_item tree hfindex (shown buf)
    reset buf
    if is_container_type type
        then (do
          inside host.realloc (λ _. nested) tt
          add_string_item_with_header tree hfindex (
              shown (
                append_string_f (text (close_char type) ∷ [])
                  (append_repeated (text "    " ∷ []) indent_level (some [])))))
        else pure tt

  -- `AddGenericTLVItem`, which calls itself for the elements of a container.
  unfoldable pub add_generic : ℕ → ProtoItem → Field → Bool → Bool → ℕ → Act (Unit {0})
  add_generic zero tree hfindex suppress_tag suppress_header indent_level d = unfinished
  add_generic (suc fuel) tree hfindex suppress_tag suppress_header indent_level d =
      generic_item (add_generic fuel tree hfindex false true (indent_level + 1)) tree hfindex
        suppress_tag suppress_header indent_level d

  -- `AddGenericTLVItem` without a header's suppression. Each level of nesting takes a byte at least.
  unfoldable pub add_generic_tlv_item : ProtoItem → Field → Bool → Act (Unit {0})
  add_generic_tlv_item tree hfindex suppress_tag d =
      add_generic (suc (remaining d)) tree hfindex suppress_tag false 0 d

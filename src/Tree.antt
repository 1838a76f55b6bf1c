-- ===== src/Tree.antt =====
-- What the dissectors ask of Wireshark's protocol tree, as a record of the calls: the items with their
-- field, place in the packet and text, and later changes of a text. The fields are those that
-- packet-matter-im.cpp registers.
pub use Prim.Native.String.{String}
use matter_dissector.Prelude.{ℕ, Bool, Option, List}
use matter_dissector.Tlv.Reader.Values.{FloatBits}

-- A part of a text. `number` and `real` are a conversion of `printf` with the bits of its argument,
-- `numbers` is a format with two arguments, `chars` is `%s` of a message's bytes, and `escaped` is `%s` of what `ws_escape_string` makes of them.
-- `id_text` is what `snprintf` stores in a buffer of a size: a separator, a label, `=0x%X` of a number,
-- and ` (` with the name, if there is one.
pub data Piece : Type 0 where
  text : String → Piece
  chars escaped : List ℕ → Piece
  number : String → ℕ → Piece
  real : String → FloatBits → Piece
  numbers : String → ℕ → ℕ → Piece
  id_text : ℕ → String → String → ℕ → Option String → Piece

abbrev pub Text : Type 0
Text = List Piece

-- A pointer to an item: the tree that the dissector was given, the parent of an item, or what the call
-- with a number, counted from zero, gave back.
pub data ProtoItem : Type 0 where
  outer : ProtoItem
  parent_of : ProtoItem → ProtoItem
  made : ℕ → ProtoItem

-- The types of fields that the registration uses, and the integers of `proto_registrar_get_ftype` that
-- `AddTypedItem` looks for: `ft_int w` and `ft_uint w` have `w` bits.
pub data Ftype : Type 0 where
  ft_none ft_string ft_bytes ft_boolean ft_protocol ft_unknown : Ftype
  ft_int ft_uint : ℕ → Ftype

-- `proto_im` and the `hf_` variables of packet-matter-im.cpp; `unregistered` is -1. A variable of another
-- dissector is `registered`, with the name and the type that it is registered with.
pub data Field : Type 0 where
  unregistered proto_im im_subscription_id : Field
  im_common_version im_common_unknown im_common_field timed_request_timeout_ms : Field
  status_response_status : Field
  read_request_attribute_requests read_request_event_requests read_request_event_filters : Field
  read_request_is_fabric_filtered read_request_data_version_filters : Field
  report_data_subscription_id report_data_attribute_reports report_data_event_reports : Field
  report_data_more_chunked_messages report_data_suppress_response : Field
  write_request_suppress_response write_request_timed_request write_request_write_requests : Field
  write_request_more_chunked_messages write_response_write_responses : Field
  subscribe_request_keep_subscriptions subscribe_request_min_interval_floor : Field
  subscribe_request_max_interval_ceiling subscribe_request_attribute_requests : Field
  subscribe_request_event_requests subscribe_request_event_filters : Field
  subscribe_request_is_fabric_filtered subscribe_request_data_version_filters : Field
  subscribe_response_subscription_id subscribe_response_max_interval : Field
  command_request_suppress_response command_request_timed_request : Field
  command_request_command_list command_request_path command_request_expiry_time : Field
  command_request_command_type command_request_required_version command_request_argument : Field
  command_response_suppress_response command_response_invoke_responses : Field
  command_response_invoke_responses_detail command_response_version command_response_result : Field
  command_data_ib command_status_ib status_ib : Field
  command_status_status command_status_cluster_status command_status_ref : Field
  data_elem_property_path data_elem_property_data : Field
  registered : String → Ftype → Field

-- The types in the array `hf` of `proto_register_matter_im`.
unfoldable pub ftype : Field → Ftype
ftype unregistered = ft_unknown
ftype (registered name type) = type
ftype proto_im = ft_protocol
ftype im_subscription_id = ft_uint 64
ftype timed_request_timeout_ms = ft_uint 16
ftype read_request_attribute_requests = ft_none
ftype read_request_event_requests = ft_none
ftype read_request_event_filters = ft_none
ftype read_request_data_version_filters = ft_none
ftype report_data_attribute_reports = ft_none
ftype report_data_event_reports = ft_none
ftype write_request_write_requests = ft_none
ftype write_response_write_responses = ft_none
ftype subscribe_request_attribute_requests = ft_none
ftype subscribe_request_event_requests = ft_none
ftype subscribe_request_event_filters = ft_none
ftype subscribe_request_data_version_filters = ft_none
ftype command_request_suppress_response = ft_boolean
ftype command_request_timed_request = ft_boolean
ftype command_request_command_list = ft_none
ftype command_request_expiry_time = ft_uint 64
ftype command_request_command_type = ft_uint 64
ftype command_request_required_version = ft_uint 64
ftype command_request_argument = ft_none
ftype command_response_invoke_responses_detail = ft_none
ftype command_response_version = ft_uint 64
ftype command_data_ib = ft_none
ftype command_status_ib = ft_none
ftype status_ib = ft_none
ftype command_status_status = ft_uint 16
ftype command_status_cluster_status = ft_uint 16
ftype command_status_ref = ft_uint 16
ftype data_elem_property_data = ft_none
ftype _ = ft_string

-- The value of a new item, by the function that adds it: `proto_tree_add_item`, `_add_int`, and so on.
pub data Shown : Type 0 where
  item none_null : Shown
  int int64 uint uint64 : ℕ → Shown
  boolean : Bool → Shown
  double : FloatBits → Shown
  string : List ℕ → Shown
  bytes : List ℕ → Shown
  string_value string_format : Text → Shown
  uint_format : ℕ → Text → Shown

-- A call that changes the tree: `add` has the parent, the field, the start and length in the packet and
-- the value.
pub data TreeCall : Type 0 where
  add : ProtoItem → Field → ℕ → ℕ → Shown → TreeCall
  append_text set_text : ProtoItem → Text → TreeCall
  set_hidden : ProtoItem → TreeCall

-- What the dissector uses of other code: which sizes `realloc` and `malloc` can give, which pointers to
-- an item are NULL, whether `%.17g` of a number has a point or an exponent, and the text of a number in the
-- format `DNAttr_%u`.
pub record Host : Type 0 where
  pub realloc : ℕ → Bool
  pub malloc : ℕ → Bool
  pub is_null : ProtoItem → Bool
  pub shows_point : FloatBits → Bool
  pub unnamed_attribute : ℕ → String
  pub accepts : Field → ℕ → ℕ → Shown → Bool

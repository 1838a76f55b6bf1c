-- ===== src/Im/Safety/Messages.antt =====
-- The messages, and `DissectIM` on every payload.
use matter_dissector.Prelude.{
  ℕ, ◌-◌, ◌^◌, ◌<◌, ◌≡◌, refl, Bool, Option, some, none, List, length, arith, if◌then◌else◌, ◌==◌,
  true, false, ◌&&◌, ◌||◌, leb,
}
use matter_dissector.Tree.{ProtoItem, made, Host, String, TreeCall, Field}
use matter_dissector.Tlv.Reader.State.{TlvReader, IsValid}
use matter_dissector.Dissector.{Run, Act}
use matter_dissector.Dissector.Safety.{
  Keeps, keeps, gives_up, crashes, SafeBelow, next_expected-Safe, safe,
}
use matter_dissector.Dissector.Shows.{tree_call-Safe, add_list_item-Safe}
use matter_dissector.Im.Names.{NameTables}
use matter_dissector.Im.Values.{Decoders}
use matter_dissector.Im.Messages.{
  Entry, entry, list, add_entry, dissect_structure, dissect_im_status_response,
  dissect_im_read_request, dissect_im_report_data, dissect_im_subscribe_request,
  dissect_im_subscribe_response, dissect_im_write_request, dissect_im_write_response,
  dissect_im_command_request, dissect_im_command_response, dissect_im_timed_request, im_message,
  read_request_entry, report_data_entry, subscribe_request_entry, subscribe_response_entry,
  status_response_entry, write_request_entry, write_response_entry,
}
use matter_dissector.Im.Dissect.{
  Dissected, returned, crash, finish, start, dissect_message, dissect_im,
}
use matter_dissector.Im.Safety.Fields.{
  DecodersSafe, shows, add_attribute_path_item-Safe, add_event_path_item-Safe,
  add_event_filter_ib_item-Safe, add_data_version_filter_ib_item-Safe,
}
use matter_dissector.Im.Safety.Reports.{
  add_attribute_data_ib_item-Safe, add_attribute_status_ib_item-Safe,
  add_attribute_report_ib_item-Safe,
}
use matter_dissector.Im.Safety.Events.{
  add_event_report_ib_item-Safe, add_command_data_ib_for_request-Safe, add_invoke_response_ib-Safe,
}

-- The handler of a list is safe.
data EntrySafe (n : ℕ) : Entry → Type 0 where
  entry_Safe : {f : Field} → EntrySafe n (entry f)
  list_Safe :
      {f : Field} {handler : ProtoItem → Act (Unit {0})}
      → ((tree : ProtoItem) → SafeBelow n (handler tree))
      → EntrySafe n (list f handler)

module _ {n : ℕ} where
  EntrySafe-if :
      (b : Bool) {e f : Entry} → EntrySafe n e → EntrySafe n f → EntrySafe n (if b then e else f)
  EntrySafe-if true p q = p
  EntrySafe-if false p q = q

ruleset entries = (
  EntrySafe-if, entry_Safe, list_Safe, add_attribute_path_item-Safe, add_event_path_item-Safe,
  add_event_filter_ib_item-Safe, add_data_version_filter_ib_item-Safe,
  add_attribute_data_ib_item-Safe, add_attribute_status_ib_item-Safe,
  add_attribute_report_ib_item-Safe, add_event_report_ib_item-Safe,
)

module _ {n : ℕ} (host : Host) (decoders : Decoders) (tables : NameTables) where
  add_entry-Safe :
      (tested : Bool) (tree : ProtoItem) (e : Entry)
      → EntrySafe n e
      → SafeBelow n (add_entry host decoders tables tested tree e)
  unfolding add_entry
  add_entry-Safe tested tree (entry f) entry_Safe = search shows
  add_entry-Safe tested tree (list f handler) (list_Safe p) =
      search (shows, add_list_item-Safe, p) depth 20

  dissect_structure-Safe :
      (title : String) (element : ProtoItem → ℕ → Act (Unit {0})) (tree : ProtoItem)
      → ((tag : ℕ) → SafeBelow n (element tree tag))
      → SafeBelow n (dissect_structure host decoders tables title element tree)
  unfolding dissect_structure
  dissect_structure-Safe title element tree p =
      search (safe, tree_call-Safe, next_expected-Safe, p) depth 20

  dissect_im_status_response-Safe :
      (tree : ProtoItem) → SafeBelow n (dissect_im_status_response host decoders tables tree)
  unfolding dissect_im_status_response status_response_entry
  dissect_im_status_response-Safe tree =
      search (shows, dissect_structure-Safe, add_entry-Safe, entries) depth 20

  dissect_im_read_request-Safe :
      (tree : ProtoItem) → SafeBelow n (dissect_im_read_request host decoders tables tree)
  unfolding dissect_im_read_request read_request_entry
  dissect_im_read_request-Safe tree =
      search (shows, dissect_structure-Safe, add_entry-Safe, entries) depth 20

  dissect_im_subscribe_request-Safe :
      (tree : ProtoItem) → SafeBelow n (dissect_im_subscribe_request host decoders tables tree)
  unfolding dissect_im_subscribe_request subscribe_request_entry
  dissect_im_subscribe_request-Safe tree =
      search (shows, dissect_structure-Safe, add_entry-Safe, entries) depth 20

  dissect_im_subscribe_response-Safe :
      (tree : ProtoItem) → SafeBelow n (dissect_im_subscribe_response host decoders tables tree)
  unfolding dissect_im_subscribe_response subscribe_response_entry
  dissect_im_subscribe_response-Safe tree =
      search (shows, dissect_structure-Safe, add_entry-Safe, entries) depth 20

  dissect_im_write_response-Safe :
      (tree : ProtoItem) → SafeBelow n (dissect_im_write_response host decoders tables tree)
  unfolding dissect_im_write_response write_response_entry
  dissect_im_write_response-Safe tree =
      search (shows, dissect_structure-Safe, add_entry-Safe, entries) depth 20

  dissect_im_timed_request-Safe :
      (tree : ProtoItem) → SafeBelow n (dissect_im_timed_request host decoders tables tree)
  unfolding dissect_im_timed_request
  dissect_im_timed_request-Safe tree =
      search (shows, dissect_structure-Safe, add_entry-Safe, entries) depth 20

module _ {n : ℕ} (host : Host) (decoders : Decoders) (ds : DecodersSafe decoders)
    (tables : NameTables) where
  dissect_im_report_data-Safe :
      (tree : ProtoItem) → SafeBelow n (dissect_im_report_data host decoders tables tree)
  unfolding dissect_im_report_data report_data_entry
  dissect_im_report_data-Safe tree =
      search (shows, dissect_structure-Safe, add_entry-Safe, entries) depth 20

  dissect_im_write_request-Safe :
      (tree : ProtoItem) → SafeBelow n (dissect_im_write_request host decoders tables tree)
  unfolding dissect_im_write_request write_request_entry
  dissect_im_write_request-Safe tree =
      search (shows, dissect_structure-Safe, add_entry-Safe, entries) depth 20

  dissect_im_command_request-Safe :
      (tree : ProtoItem) → SafeBelow n (dissect_im_command_request host decoders tables tree)
  unfolding dissect_im_command_request
  dissect_im_command_request-Safe tree =
      search
        (
          shows, dissect_structure-Safe, add_entry-Safe, entries, add_list_item-Safe,
          add_command_data_ib_for_request-Safe,
        )
        depth 20

  dissect_im_command_response-Safe :
      (tree : ProtoItem) → SafeBelow n (dissect_im_command_response host decoders tables tree)
  unfolding dissect_im_command_response
  dissect_im_command_response-Safe tree =
      search
        (
          shows, dissect_structure-Safe, add_entry-Safe, entries, add_list_item-Safe,
          add_invoke_response_ib-Safe,
        )
        depth 20

-- The messages with values of attributes, of events or of commands, which decoders may be called on.
abbrev pub has_values : ℕ → Bool
has_values msg_type = (msg_type == 5) || (msg_type == 6) || (msg_type == 8) || (msg_type == 9)

-- The types of the messages, as a range.
abbrev pub is_im_type : ℕ → Bool
is_im_type msg_type = leb 1 msg_type && leb msg_type 10

-- A known type has a function, and the function is safe.
data MessageSafe (n : ℕ) (known : Bool) : Option (ProtoItem → Act (Unit {0})) → Type 0 where
  some_Safe :
      {f : ProtoItem → Act (Unit {0})}
      → known ≡ true
      → ((tree : ProtoItem) → SafeBelow n (f tree))
      → MessageSafe n known (some f)
  none_Safe : known ≡ false → MessageSafe n known none

MessageSafe-if :
    {n : ℕ} {known : Bool} (b : Bool) {f g : Option (ProtoItem → Act (Unit {0}))}
    → (b ≡ true → MessageSafe n known f)
    → (b ≡ false → MessageSafe n known g)
    → MessageSafe n known (if b then f else g)
MessageSafe-if true p q = p refl
MessageSafe-if false p q = q refl

im_message-Safe :
    {n : ℕ} (host : Host) (decoders : Decoders) (tables : NameTables) (msg_type : ℕ)
    (ds : has_values msg_type ≡ true → DecodersSafe decoders)
    → MessageSafe n (is_im_type msg_type) (im_message host decoders tables msg_type)
unfolding im_message
im_message-Safe host decoders tables t ds =
    MessageSafe-if (t == 1)
      (λ e. some_Safe (ground arith) (dissect_im_status_response-Safe host decoders tables))
      (λ n1.
        MessageSafe-if (t == 2)
          (λ e. some_Safe (ground arith) (dissect_im_read_request-Safe host decoders tables))
          (λ n2.
            MessageSafe-if (t == 5)
              (λ e.
                some_Safe (ground arith)
                  (dissect_im_report_data-Safe host decoders (ds (ground arith)) tables))
              (λ n3.
                MessageSafe-if (t == 3)
                  (λ e.
                    some_Safe (ground arith)
                      (dissect_im_subscribe_request-Safe host decoders tables))
                  (λ n4.
                    MessageSafe-if (t == 4)
                      (λ e.
                        some_Safe (ground arith)
                          (dissect_im_subscribe_response-Safe host decoders tables))
                      (λ n5.
                        MessageSafe-if (t == 6)
                          (λ e. some_Safe (ground arith) (
                            dissect_im_write_request-Safe host decoders (ds (ground arith)) tables))
                          (λ n6.
                            MessageSafe-if (t == 7)
                              (λ e.
                                some_Safe (ground arith)
                                  (dissect_im_write_response-Safe host decoders tables))
                              (λ n7.
                                MessageSafe-if (t == 8)
                                  (λ e. some_Safe (ground arith) (
                                    dissect_im_command_request-Safe host decoders
                                      (ds (ground arith)) tables))
                                  (λ n8.
                                    MessageSafe-if (t == 9)
                                      (λ e. some_Safe (ground arith) (
                                        dissect_im_command_response-Safe host decoders
                                          (ds (ground arith)) tables))
                                      (λ n9.
                                        MessageSafe-if (t == 10)
                                          (λ e.
                                            some_Safe (ground arith)
                                              (dissect_im_timed_request-Safe host decoders tables))
                                          (λ n10. none_Safe (ground arith)))))))))))

start-valid :
    (host : Host) (payload : List ℕ) → length payload < 2 ^ 16 → IsValid (start host payload).reader
unfolding start
start-valid host payload h = record { fits = omega arith; bounded = omega arith }

start-small :
    (host : Host) (payload : List ℕ)
    → length payload < 2 ^ 16
    → (start host payload).reader.max_len < 2 ^ 32 - 1
unfolding start
start-small host payload h = omega arith

-- The call returns `n`, unless it crashes or Wireshark ends it.
pub data Returns (n : ℕ) : Dissected → Type 0 where
  returns : {calls : List TreeCall} → Returns n (returned n calls)
  crashes_in : Returns n crash

finish-Returns : (n : ℕ) {r : TlvReader} {o : Run (Unit {0})} → Keeps r o → Returns n (finish n o)
unfolding finish
finish-Returns n (keeps a) = returns
finish-Returns n (gives_up a) = returns
finish-Returns n crashes = crashes_in

-- `DissectIM` on a payload of at most 65535 bytes and of a type whose values no decoder is called on, or
-- of an unknown type, comes to an end, whatever the bytes are and whatever the decoders do: it does not read
-- outside of the payload, its loops and calls of itself do not run for more rounds than the payload has
-- bytes, and unless a crash or an assertion of Wireshark's ends it, it returns the length of the payload
-- for the types 1 to 4, 7 and 10 and zero for unknown types.
pub dissect_im-Returns :
    (host : Host) (decoders : Decoders) (tables : NameTables) (msg_type : ℕ) (payload : List ℕ)
    → has_values msg_type ≡ false
    → length payload < 2 ^ 16
    → Returns
        (if is_im_type msg_type then length payload else 0)
        (dissect_im host decoders tables msg_type payload)
unfolding dissect_im
dissect_im-Returns host decoders tables msg_type payload no_values h =
    by_message (is_im_type msg_type) (im_message host decoders tables msg_type)
      (im_message-Safe {n = 2 ^ 32} host decoders tables msg_type λ e. absurd (ground arith))
  where
    by_message :
        (known : Bool) (m : Option (ProtoItem → Act (Unit {0})))
        → MessageSafe (2 ^ 32) known m
        → Returns (if known then length payload else 0) (dissect_message host m payload)
    by_message known (some f) (some_Safe e p) = rw e (
        finish-Returns (length payload) (
          (p (made 0)).runs (start host payload) (start-valid host payload h)
            (start-small host payload h) (omega (arith, start-small host payload h))))
    by_message known none (none_Safe e) = rw e returns

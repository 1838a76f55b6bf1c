-- ===== src/Lib.antt =====
-- Verification of the Matter dissector for Wireshark.
--
-- The plugin shows Matter messages. A packet enters `DissectMatter` (packet-matter.cpp), which reads the
-- message header, finds a key that opens an encrypted message (packet-matter-decrypt.cpp,
-- MessageEncryptionKey.cpp), reads the header of the payload, keeps a record of the message and looks up
-- its retransmissions, its exchange and its acknowledgements (MatterMessageTracker.cpp), and hands the
-- payload to the dissector of its protocol. Those walk TLV data with `TLVDissector` (TLVDissector.cpp)
-- over `TLVReader` (MatterMinimal/src/lib/core/MatterTLVReader.cpp).
--
-- Which file models which part:
--   Encoding         MatterMinimal/include/Matter/Core/MatterEncoding.h, the little-endian functions
--   Tlv.Types        MatterMinimal/include/Matter/Core/MatterTLVTypes.h
--   Tlv.Tags         MatterMinimal/include/Matter/Core/MatterTLVTags.h
--   Tlv.Reader       MatterTLVReader.cpp and the members of `TLVReader` in MatterTLV.h. State has the
--                    members and the effects of a method; Input is `EnsureData` and `ReadData`; Element is
--                    `ReadElement` with what it calls; Container is `Next`, `Skip` and the containers;
--                    Values is `Get` and the strings. Wire has the layout of a head; the others hold
--                    the proofs.
--   Tlv.Grammar      the encodings of elements and of containers, which Tlv.Reader.Skips compares with `Skip`
--   Tree             what is asked of Wireshark's tree, and the fields of packet-matter-im.cpp
--   Dissector        TLVDissector.cpp: the marked range and the stack; Moves is `Next`,
--                    `EnterContainer` and `ExitContainer`, Elements the loop over a container, Items the
--                    functions that add one item, Generic `AddGenericTLVItem`, Lists `AddListItem`.
--                    Strings reads the bytes of strings. Ranges, Stack, Safety, Shows and
--                    Stops hold the proofs.
--   Im               packet-matter-im.cpp: Names is the lookups of names, Values the fields of commands and
--                    structures, Paths the paths, Fields the statuses and filters, Attributes and Reports
--                    attribute data, statuses and reports, Events event reports, Commands command data
--                    and invoke responses, Messages the ten messages, Dissect `DissectIM`, Subscription
--                    `AssociateWithIMSubscription`, Certificates certificates in Matter's own encoding.
--                    Safety, by the same parts, and Writes hold the proofs.
--   Packet           what the dissectors of protocols do with the payload's buffer and the tree, and its
--                    exceptions; Safety has the proofs that they come to an end
--   Names            MatterMinimal/src/lib/support/MatterNames.cpp (Messages has the names of messages) and
--                    StatusReportStr.cpp (Statuses)
--   Common           packet-matter-common.cpp: Fields is its fields, Session the messages that set up a
--                    session; Safety and Ends hold the proofs
--   Udc              packet-matter-udc.cpp: Data is the TLV data; Ends holds the proofs
--   Echo             packet-matter-echo.cpp
--   Security         packet-matter-security.cpp: Certificates and the signatures, Case the records of
--                    exchanges and the session key, State what is kept, Begin the messages that begin a
--                    session; Safety, Recovery and Ends hold the proofs
--   Hkdf             HKDF.c; Rfc compares it with RFC 5869
--   Message          packet-matter.h, and the session id tests of MatterSessionIds.h; KeyIds has its
--                    other functions
--   Header           packet-matter.cpp, `DissectMatter`: both headers
--   Keys             MessageEncryptionKey.cpp; Laws and Added hold the proofs
--   Decrypt          packet-matter-decrypt.cpp (Ccm) and `TryDecryptMessage` of packet-matter.cpp (Search)
--   Tracker          MatterMessageTracker.cpp: Records is the heap and the chains, Tables the tables, Find
--                    the searches, Message what `DissectMatter` asks of them; Chains, Search, Start, Insert and
--                    Keys hold the proofs.
--   Wmem, Tvb        what is assumed of Wireshark's trees and buffers, with an instance of each
--   Examples         runs on concrete inputs
--
-- Names are the source's in this language's spelling: `ReadElement` is `read_element`, `mElemTag` is
-- `elem_tag`. Numbers are natural numbers with the wrap-around of their type written out. A pointer into a
-- buffer is the list of the bytes behind it; a read past the end is `fault`, a result that no method of
-- the source has. A pointer to a message record is an index into a heap, since records are never freed.
-- Wireshark's trees, its packet buffers, OpenSSL, `malloc` and `realloc` are parameters.
--
-- The calls that change Wireshark's tree are recorded in the dissector, and an item is named by the number of
-- the call that made it. Which items the tree takes is a parameter, `accepts`, since Wireshark asserts that a
-- field is of the function's type unless it makes no item at all. Such an assertion, a store through a null
-- pointer and a copy past a block are the result `crashed`, which ends the run. A read of more bytes than a
-- buffer has is `faulted`. An error that the caller drops is caught by `attempt`.
--
-- Fuel: a loop over a chain of records gets one round more than records were made, and a loop over the
-- elements of a container one round more than bytes are left, since each round reads a byte at least;
-- so does each level of a function that calls itself for nested elements. The loop of `HKDF_expand` gets one
-- round more than bytes are asked for.
--
-- An item or a copy of bytes that reaches outside of the payload is an exception of Wireshark's, the
-- result `throws`; what it leaves in the records is left out.
--
-- Not modelled: the columns of the packet list, registration and preferences, the decoders that the
-- interaction model calls on byte strings (arguments; the one of certificates in Matter's own encoding has a
-- model, Im/Certificates), `AddIMPathItem`, which nothing calls, the growth of
-- text buffers, the fingerprint of a message (an argument here), the files with key hints (the hints are
-- arguments), and the texts of error numbers (ErrorStr.cpp), which no dissector shows.
pub mod Prelude
pub mod Encoding
pub mod Tlv
pub mod Tree
pub mod Dissector
pub mod Names
pub mod Packet
pub mod Common
pub mod Security
pub mod Udc
pub mod Echo
pub mod Im
pub mod Hkdf
pub mod Wmem
pub mod Tvb
pub mod Message
pub mod Header
pub mod Tracker
pub mod Keys
pub mod Decrypt
pub mod Examples

-- ===== src/Lib.antt =====
-- LinkChat: chat and file transfer between the nodes of one Ethernet segment, over frames of its own.
--
-- A node has a thread manager (src/core/managers/service_threads.py) with five loops: the receiver
-- decodes and opens packets, the sender seals and encodes frames, the dispatcher hands frames to the
-- handler of their type, the scheduler runs periodic tasks, and the file sender serves the outgoing
-- transfers. Discovery, messaging and the two sides of the file transfer are handlers of that
-- manager; a server answers the commands of a user interface and sends it events; the interface
-- sorts these events into its own services.
--
-- Which file models which part (paths from the repository's root):
--   Text, Dict: what Python's str, bytes and dict do, as far as the program uses it: UTF-8, strip,
--     splitlines, int, str(n), and dictionaries in insertion order.
--   Payload: src/file_transfer/helpers/parse_payload.py and _kv_bytes of
--     src/file_transfer/handlers/file_transfer_handler.py. Payload.Fields: what can stand in a line.
--   Frame: src/core/enums, src/core/schemas/frame_schemas.py, src/core/helpers. Frame.Struct has the
--     formats of struct.pack, Frame.Crc the checksum of zlib, bit by bit, Frame.Mac the addresses,
--     Frame.Codec the two directions.
--   Security: src/security/security_handler.py; Security.Manager: src/security/security_manager.py.
--   Transfer: the contexts (src/file_transfer/schemas) and the frames of a transfer.
--     Transfer.Events: src/file_transfer/handlers/ui_events.py. Transfer.Paths: the os.path and
--     pathlib calls of the receiver. Transfer.Receiver: src/file_transfer/file_receiver.py, with
--     _on_meta in Meta and _on_data in Data. Transfer.Window: _pump, _retransfer_expired and
--     _refill_window; its children follow the rounds of the pump, Ending those that no answer
--     interrupts. Transfer.Sender: src/file_transfer/file_sender.py, send_folder in Folder.
--     Transfer.Receiver.Announced and Whole put the two ends together for frames in a given order.
--     Transfer.Session: the two ends as a relation between states, whose steps are a round of the
--     pump, the arrival of any frame that was ever queued, at its handler, and nothing else; so a
--     frame can be lost, come again or overtake another.
--   Threads: one round of each other loop, and the registries; Threads.Scheduler: the tasks.
--   Services: src/discover/discover.py and src/messaging/service_messaging.py. Services.Table: the
--     table of neighbors as a function from addresses.
--   Server: src/app_server.py with the events, the poller, the text commands (Commands), the commands
--     that send files (Files), the choice between them (Dispatch), the key and the path of the socket
--     (Setup); Server.Ipc: ipc/ipc_server.py.
--   Client: ui/services/eventPump.py, roster.py, chat.py and file.py (Files, its events in
--     Files.Table); the cards of the outgoing files in ui/app.py
--     (Cards) and of the incoming ones (Incoming, Received). Config: src/prepare/network_config.py;
--     Config.EtherType, the number of the EtherType, and
--     Config.Preferred, the order in which it prefers the interfaces.
--   Examples: the theorems at concrete inputs.
--
-- How the code corresponds. A method becomes a function from the state to the state, or to a result
-- where an exception can leave it; an exception that a loop catches leaves the state that the loop
-- sees afterwards. Numbers are natural numbers, and integers only where the code can meet a negative
-- one; sequence numbers keep their wrap-around at 2^16. Times are natural numbers of milliseconds,
-- and every reading of the clock is an argument. A lock that a method holds makes its body one step;
-- what other threads do between two steps is an argument of the step. A set of indices is a list
-- without repetition. Files are a function from paths to contents. A quotient that becomes a float is
-- kept as the two numbers that are divided. Where a method returns None or a value, the function gives
-- an Option; the fields of a JSON object that a handler reads are the fields of a record.
--
-- Parameters: HMAC-SHA-256 is a function whose digests have 32 bytes; the SHA-256 digest of a file,
-- os.path.realpath, the socket, json and the nonces are arguments, and so are products of floats and,
-- where names are ordered, str.lower with its tables of Unicode (for keys, commands and types of events
-- it is the one of ASCII). The order of the file's chunks, what is lost and what is repeated is the
-- list of frames that a theorem speaks of.
--
-- Fuel. `advance` (the loop over next_needed) has the number of missing indices, `refill_loop` the
-- number of chunks that are not sent yet, the key stream and the key derivation one round for each
-- byte that is asked for: each round makes progress by one at least. The rounds of waiting for the
-- first acknowledgement and those of the pump are lists, since other threads end them;
-- Transfer.Sender.Waiting and Transfer.Window.Ending say how many are enough when nobody answers, and
-- Transfer.Window.Budget counts the frames that they may queue.
--
-- The session starts when the announcement is handled and acknowledged, and a repeated announcement is
-- not a step of it: the receiver starts such a transfer again. Retransmissions of the announcement are
-- in Transfer.Sender, and the receiver's answer to any announcement is in Transfer.Receiver.Meta.
--
-- Not modelled: the raw socket (src/core/managers/raw_socket.py), the start and the stop of threads and
-- of the IPC server, signals, the interface's end of the socket (ui/services/ipc_uds.py), the
-- server's choice of its EtherType, and the rest of the pygame interface (ui/app.py,
-- ui/components, ui/core): input, output and drawing. A CHUNK_SIZE that is negative is left out.
pub mod Prelude
pub mod Text
pub mod Dict
pub mod Payload
pub mod Frame
pub mod Security
pub mod Transfer
pub mod Threads
pub mod Services
pub mod Server
pub mod Client
pub mod Config
pub mod Examples

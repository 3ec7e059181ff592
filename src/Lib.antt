-- ===== src/Lib.antt =====
-- SmartGateway: the protocols, the tables, the queues and the routing of an IoT gateway written in C.
--
-- Nodes talk to the gateway by frames `@payload*CRC\r\n`. `common/frame.c` builds them with the CRC
-- of `common/crc16.c`; `common/frame_parser.c` finds them in a stream and decodes their payload.
-- `server/command_manager.c` numbers the commands that the server sends, pairs ACKs and NACKs with
-- them, and sends them again. On the gateway `gateway/device_manager.c` keeps the devices, the
-- connections that own them, and a queue of commands for each; `gateway/message_queue.c` carries
-- messages between its threads. The workers of `gateway/bluetooth_worker.c` and
-- `gateway/wifi_client.c` own the connections to the nodes, and `gateway/server_link.c` the one to the
-- server; `gateway/gateway_app.c` turns what they receive into messages and commands. Gateway and
-- server, and WiFi nodes and gateway, exchange lines of JSON, which `common/message_json.c` builds and
-- decodes and `common/line_parser.c` finds in a stream. `server/node_store.c` keeps the latest data of
-- each node.
--
-- Files and the code that they model:
--   Crc16                common/crc16.c
--   Frame                common/frame.h and common/frame.c
--   FrameParser          common/frame_parser.c: frame_parser_feed and validate_frame
--   FrameParser.Decode   common/frame_parser.c: parse_kv_payload and the decoders
--   CommandManager       server/command_manager.c
--   DeviceManager        gateway/device_manager.c, the queues in DeviceManager.Queues
--   MessageQueue         gateway/message_queue.c; a test of a wait loop is one step
--   MessageJson          common/message_json.c: Scan, Object, Decode, Data and Build
--   LineParser           common/line_parser.c
--   NodeStore            server/node_store.c
--   GatewayApp           gateway/gateway_app.c: Arguments, Upstream and Downlink
--   Workers              gateway/bluetooth_worker.c and gateway/wifi_client.c: the steps of their loops
--   ServerLink           gateway/server_link.c: a round of the loop is a function
--   ServerMain           server/main.c: line_has and on_line
--   SendAll              gateway/serial_port.c, gateway/wifi_client.c and gateway/tcp_client.c: the loops
--                        that write a whole text
-- RoundTrip joins Frame and FrameParser, JsonStream joins MessageJson and LineParser, and
-- Workers.Forward joins the frames, the gateway and the JSON codec: the path of the data from a node
-- to the server. Prelude has the helpers that the modules share. Modules below a component hold its
-- proofs, and its Tests the runs at concrete inputs.
--
-- The model's functions have the names of the C functions. A function that changes `*x` takes x and
-- returns the new x beside its result. A C string is the list of its bytes before the NUL, an array
-- with its length is a list, and a pointer into an array is an index. A pointer that is only tested
-- for NULL is a value, so that test has no counterpart; where NULL is an answer or selects a
-- behaviour it is `none` or a flag. Counters of the C type `unsigned long` wrap at 2 ^ 64. Loops are
-- recursions on the list that they walk over or on the rounds that are left. Two loops take fuel: those
-- of the JSON parsers, which have one more than the length of the line, and that of line_parser_feed,
-- which has the length of its buffer; each round consumes a byte, so that is enough.
-- Functions of the C library (snprintf, strtoul, strtol, atoi, strtok_r, strrchr, memchr) are modelled
-- as far as the code uses them. Time and the results of other system calls are arguments. An operation
-- that holds one mutex throughout is atomic, so what threads do is a sequence of operations. The steps of
-- the node workers keep the messages that the upstream queue takes from them, and how many it takes before
-- another thread shuts it down; a text written to a node may go out in part. MessageJson.Format gives the
-- format of the lines as JSON objects, beside what the builders print.
--
-- Not modelled: sockets and serial ports behind the results of their calls, the starting and joining
-- of threads, the order in which a node's worker runs its steps, the console and the
-- select loop of server/main.c, and the other programs' main functions.
pub mod Prelude
pub mod Crc16
pub mod Frame
pub mod FrameParser
pub mod RoundTrip
pub mod CommandManager
pub mod DeviceManager
pub mod MessageQueue
pub mod MessageJson
pub mod GatewayApp
pub mod Workers
pub mod ServerLink
pub mod SendAll
pub mod LineParser
pub mod JsonStream
pub mod ServerMain
pub mod NodeStore

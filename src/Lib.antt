-- ===== src/Lib.antt =====
-- raiot-rs, a client for the Azure IoT Hub: the circular buffer of bytes (raiot-buffers), the MQTT
-- packets that pass through it (raiot-mqtt), the protocol of the hub (raiot-protocol) and two clients,
-- the single-threaded one (raiot-stclient) and the asynchronous one (raiot-client), over their streams
-- (raiot-streams).
--
-- Bytes that arrive go into the circular buffer of a packetizer, which hands out the MQTT packets in
-- them one by one; the codec turns a packet into a message from the hub. The other way the codec turns
-- a message for the hub into a packet, and a streamer puts it into a circular buffer, from which it is
-- written out to the socket.
--
-- Base: options, lists and Booleans over the native numbers, and what is taken from std::io
--   (Base.Io): error kinds, results, and Read and Write with what the traits promise.
-- Ring: raiot-buffers/src/lib.rs. `CircularBuffer` has the fields of the struct; each method is a
--   function of its name from a buffer to an answer and a buffer. Ring.Valid is the invariant,
--   Ring.Contents the bytes held, Ring.Append, Ring.Take, Ring.Intake and Ring.Drain the operations,
--   Ring.Slice the reader of a slice, Ring.Fifo the bounded queue that the buffer stands for.
-- Packets: raiot-mqtt/src/packets/streamer.rs and packetizer.rs, over the same buffer.
--   Packets.Streamer and Packets.Framing hold their theorems, Packets.Framing.Cutting that on whole
--   streams. The mqtt crate is a parameter (`Encoder`,
--   `Decoder`); `ReadsHeaders` is what the MQTT standard says of a fixed header.
-- Protocol: raiot-protocol/src. Protocol.Types is identity.rs and qos.rs, Protocol.Messages is
--   messages/, Protocol.Encode and Protocol.Decode are iot_codec.rs with its errors in
--   Protocol.Errors. A text is its UTF-8 bytes (Protocol.Text). The packets of the mqtt crate are data
--   (Protocol.Mqtt), and the functions called of mqtt, serde_json, percent_encoding and url are the
--   parameter `Crates`.
--   Protocol.Encode.Buffer prints a message into a buffer; Protocol.Decode.Kinds is about the kinds of
--   messages, Protocol.Decode.Answers and Protocol.Decode.Twin about the answers to twin requests,
--   Protocol.Convert the `From` conversions and the texts of messages. Protocol.Auth is auth/ and the settings of
--   raiot-client-base/src/lib.rs; Protocol.Auth.Tokens is about the tokens. Packets.Small and
--   Protocol.Plain are a small mqtt and small crates for runs at concrete inputs.
-- Connection: raiot-mqtt/src/connection.rs, an established connection and the connector.
--   Connection.Handshake is `MqttConnectionInProgress`, for the packets of Protocol.Mqtt.
--   Connection.Sending is about `send_task`, Connection.Receiving about `recv_task`. The clock is a
--   function from the number of a look at it to the time that has passed (Connection.Clock);
--   Connection.Small is a small socket for runs at concrete inputs.
-- Client: raiot-stclient/src/lib.rs and sub.rs, with the numbering of packets of
--   raiot-client-base/src/lib.rs. A handler is a value and its call an event; `read_twin` is
--   `poll_twin`, and `Action` names all that moves the client. Client.Fresh is about the identifiers
--   that are waited for, Client.Completion about the answers to subscriptions.
--   Client.Connecting is raiot-stclient/src/conn.rs, Client.Process the method `process`, with the end of
--   its loop over the packets in Client.Process.Handling and that of the call in Client.Process.Ending.
-- Streams: raiot-streams/src/lib.rs, over a reader and a writer that stand for the stream of native_tls;
--   Streams.Writing and Streams.Reading hold the theorems, Streams.Opening the opening of streams.
-- Socket: raiot-client/src/iot_socket.rs. `Heap` holds the states behind the `Arc`s by address, with the
--   wakers woken. Socket.Ctl is `IotSocketCtl` with the sending end of the queue; Socket.Ctl.Runs names
--   what callers, tasks, the thread and the hub do to it, one action at a time. Socket.Ctl.Acks is about
--   the table of acknowledgements, Socket.Ctl.Order about the order of messages, Socket.Ctl.Waking about
--   the waking of tasks, Socket.Ctl.Asleep and
--   Socket.Ctl.Sleeping about wakers that stay, Socket.Ctl.Shared about messages with
--   one identifier, Socket.Ctl.Receiving about `recv_next`. Socket.Ctl.Loop is a pass of `socket_loop` with
--   the start of the thread, Socket.Ctl.Loop.Draining about its sending. Socket.Connect is `connect`.
-- Devices: raiot-client/src/lib.rs with dmi.rs and c2d.rs, the `DeviceClient` above that socket; a call of a
--   handler on a thread of its own is an entry of a list. Devices.Twins is about requests for twins.
-- Twin: raiot-twin/src/lib.rs, with raiot_types and raiot_codec as the parameter `TwinCrates`;
--   Twin.Reading is about `read_twin`.
-- Mock: raiot-test-utils/src/lib.rs, both ends of a socket for tests as one state; Mock.Fetching and Mock.Reading are about
--   what its client's end reads.
-- Cli: raiot-cli/src/lib.rs, the settings from the command line.
--
-- A usize has 64 bits, and its sums wrap; a byte is a number, and no operation looks at its size. A
-- call that may panic returns a `Call` or, in the codec, a `Coded`. All cargo features are on.
--
-- Fuel: the loop of `append_from_reader` has the free space and one round more, since every round but
-- the last takes in a byte; `write_all` has the length of its bytes; `send_task` and `recv_task` have
-- the number of looks at the clock. A decimal number has 20 digits, enough for 64 bits. The loops
-- of Streams, Connection.Handshake and Socket.Connect may go on for ever, as long as calls are
-- interrupted or would block; their fuel is a number of rounds, and the theorems about them that need an
-- end say what ends them. The loop of `process` takes two bytes at least off its buffer with each packet,
-- and that of `recv_next` adds one at least with each round, so the size of the buffer bounds both.
-- A hash map is an association list in the order in which it is walked.
--
-- Not modelled: the Display texts of the codec; the trait DeviceClient, which nothing uses; what
-- joins Devices and Socket, beyond the messages that pass between them; session.rs, which is not part of its crate;
-- the demo and the example, programs that call the clients.
pub mod Base
pub mod Ring
pub mod Packets
pub mod Protocol
pub mod Connection
pub mod Client
pub mod Cli
pub mod Devices
pub mod Streams
pub mod Twin
pub mod Mock
pub mod Socket

-- ===== src/Lib.antt =====
-- A model of the over-the-air update agent of rustot, in shallow embedding, with its correctness.
--
-- The agent (src/ota) downloads a firmware image that a job of AWS IoT announces. It asks for jobs and
-- reports on them through src/jobs. Before that, a device gets its certificate by src/provisioning.
-- All three send their messages through a client of MQTT. The parts:
--   Ota/Config, Ota/Error          src/ota/config.rs, error.rs: the settings with the wrap-around
--                                  arithmetic of u8, u32 and usize, and the errors
--   Ota/Version, Ota/Pal           src/ota/pal.rs: versions with their order and text, and the trait
--                                  of the platform layer with its default methods
--   Ota/Encoding                   src/ota/encoding/mod.rs: the bitmap of the blocks that are still to
--                                  come and the context of the file that is received
--   Ota/Encoding/Json              src/ota/encoding/json.rs: the job document and the reasons
--   Ota/Protocol, Ota/DataInterface
--                                  src/ota/data_interface/mod.rs: the trait that brings blocks, and the
--                                  validation of a block
--   Ota/ControlInterface           src/ota/control_interface/mod.rs: the trait of the job service
--   Ota/ControlInterface/Mqtt      src/ota/control_interface/mqtt.rs: jobs are asked for and their status
--                                  is reported over MQTT
--   Ota/Encoding/Cbor, Ota/DataInterface/Mqtt
--                                  src/ota/encoding/cbor.rs, data_interface/mqtt.rs: the messages and
--                                  topics of the streaming service, and the interface over MQTT
--   Ota/DataInterface/Http         src/ota/data_interface/http.rs: the interface that decodes nothing yet
--   Ota/State                      src/ota/state.rs. Context: events, states, the context of the
--                                  handlers, the queue and the macro data_interface!. Image: setting the
--                                  image state, ota_close. Ingest: ingest_data_block. Job: job
--                                  documents. Handlers: the other handlers. Machine: the table of the
--                                  statemachine! block
--   Ota/Builder, Ota/Agent         src/ota/builder.rs, agent.rs: building an agent, and its methods
--   Jobs/DataTypes                 src/jobs/data_types.rs: the status of a job
--   Jobs/Topics                    src/jobs/mod.rs, subscribe.rs: the topics, printed and read
--   Jobs/Subscribe                 src/jobs/subscribe.rs: what a subscription holds and sends
--   Jobs/Unsubscribe               src/jobs/unsubscribe.rs: the topics that are given up
--   Jobs/Requests                  the messages of the four requests, and how each is sent
--   Jobs/Describe, GetPending, StartNext, Update
--                                  src/jobs/describe.rs, get_pending.rs, start_next.rs, update.rs: the
--                                  builders of the requests
--   Jobs/Answers                   src/jobs/data_types.rs: the data of the answers
--   Mqtt                           the client, and the loops that send topics in packets of five
--   Provisioning/Topics, Subscriptions
--                                  src/provisioning/topics.rs: topics, and what is subscribed to
--   Provisioning/Messages, Error   src/provisioning/data_types.rs, error.rs
--   Provisioning/Fleet             src/provisioning/mod.rs: FleetProvisioner and its drop
--   Examples/FileHandler           examples/common/file_handler.rs: a platform layer that collects a file
--                                  in memory
--   Examples/Ota                   examples/ota.rs: what a device makes of a message that comes in, and
--                                  the loop that calls its agent
--   Examples/Provisioning          examples/provisioning.rs: how a device gets its certificate
--   Examples/Clock                 examples/common/clock.rs: a clock that is a request timer too
--   Examples/Network               examples/common/network.rs: sockets, plain and over TLS
-- A call of a method of the agent raises an event. The table chooses a handler by state and event, and
-- the state changes only where the handler succeeds. A handler changes the context (SmContext), calls
-- the traits, and may queue an event that a later call of process_event takes.
--
-- How the code is read. A handler is a function from the context to an outcome and a context, so what is
-- written before an error stays written. An outcome is a value, an error or a panic. The fields that
-- hold implementations of traits are never assigned: they are the record Parts, and what their methods
-- change is the field World of the context. A call that gets a &mut FileContext may change it. Arithmetic
-- wraps around, as in a release build, and usize has 32 bits, as on the target thumbv7m. The
-- configuration has both data interfaces (features ota_mqtt_data and ota_http_data). A heapless string is
-- a list of bytes; making one that does not fit panics.
--
-- Code that is not in the repository is a parameter. Deps has the types and operations of bitmaps and
-- heapless that the code uses, and BitsLaws, MapLaws and QueueLaws say what their documentation promises.
-- Smlang is the function process_event that the crate smlang writes, IsDocumented its documented reading
-- of the table. Deps/Reference instantiates all laws. Every loop of the
-- code that is modelled is structural recursion.
--
-- In a theorem on a whole update, Worlds of Ota/State/Ingest/Arrived says which worlds hold the blocks so
-- far and which the closed file: a platform need write and close only there, and no other call leaves
-- them.
--
-- In a proof the file context is seen as a set: a block is missing if it lies beyond the window of 31 bits
-- or its bit in the window is set (Ota/State/Ingest/Window). What is in Ota/State/Invariant says
-- what each handler keeps, and Ota/Agent what follows for sequences of calls: Download has an
-- update from its job on, in turns of a message and the call of process_event after it, and Unanswered a
-- transfer that nobody answers.
--
-- The client of MQTT is the record Mqtt of Mqtt, and the encoders and decoders of JSON and CBOR are
-- Json of Jobs/Requests, Cbor of Ota/Encoding/Cbor and Codec of Provisioning/Messages. JsonLaws says that
-- a text is written where it fits and how long that of a token is at least. What goes through the code
-- unread (a quality of service, an i64, an error of another crate) is a number. Printing a u32 runs on
-- fuel for its ten digits (Prelude/Text), and cutting a list into packets on as much fuel as the list
-- is long (Mqtt), which are both enough.
--
-- The file handler's buffer and its disk stand in the world: they are the parameter FileSystem of
-- Examples/FileHandler, FileSystemLaws says that what is stored is read back, and Disk of
-- Examples/FileHandler/Update that a file can be saved. Reader of Examples/Ota
-- reads the JSON of the answers. The clock stands in the world as ClockWorld of Examples/Clock says, and
-- a call gets what the system's time is. Transport of Examples/Network has the streams of std and of
-- native_tls with how they are made.
--
-- The loops of the examples are a step for each notification of the client of MQTT: a run is a list of
-- notifications or a sequence of steps. A failed expect is a panic, and a sleep changes the world.
--
-- Not modelled: logging, which only prints; the derived serialisers, which serde writes; how the examples
-- connect to a broker, look names up, read their credentials and start their threads, which is input and
-- output.
pub mod Prelude
pub mod Deps
pub mod Jobs
pub mod Mqtt
pub mod Ota
pub mod Provisioning
pub mod Examples
pub mod Tests

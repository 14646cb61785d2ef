-- ===== src/Lib.antt =====
-- A model of embassy-knx, a KNX device on an nRF microcontroller, with the theorems that make it
-- correct.
--
-- The program and its parts. Two tasks share four channels. The task of the driver
-- (src/ncn51_driver.rs) talks to the bus transceiver over a serial port: it receives telegrams,
-- acknowledges those for this device, passes them on, and sends the frames that wait. The task of
-- the application layer (src/application_layer.rs) holds the transport layer
-- (src/transport_layer.rs), which holds the network layer (src/network_layer.rs), which holds the
-- data link layer (src/data_link_layer.rs), the other end of the driver's channels. A telegram is a
-- byte buffer of a pool behind the traits of src/frame.rs. The loop of src/main.rs answers what the
-- application layer indicates.
--
-- Which file models which part:
--   Prelude       tests, lists, outcomes of calls, buffers, machine words, lemmas on bits
--   Address       IndividualAddress, GroupAddress and Address (src/frame.rs)
--   Settings      ADDRESS (src/settings.rs)
--   DataPoint     DataPoint, DataPointAccess (src/data_point.rs)
--   Frame         src/frame.rs: Types the enumerations, Reader and Writer the two traits with their
--                 default methods, Standard and Extended the two implementations, Dispatch the enum
--                 Frame, Format the log output; Header is the specification, the fields in plain
--                 arithmetic, and Standard.Orders the setters up to their order
--   Node          the state that the layers share, and the monad of their methods
--   DataLink      DataLinkLayer (src/data_link_layer.rs)
--   Network       NetworkLayer (src/network_layer.rs)
--   Transport     src/transport_layer.rs: Telegrams what a connection sends, Choice the match of
--                 handle_ind, Actions A1 to A10, Machine handle_event and handle_ind, with
--                 Machine.Spec the connection as its peers see it and Machine.Refine that it does
--                 so, Layer the methods of TransportLayer
--   Application   ApplicationLayer (src/application_layer.rs); Response also the answer of
--                 src/main.rs
--   Driver        src/ncn51_driver.rs: Uart the calls of the port, Receive receive_frame, Transmit
--                 send_frame, Run the loop, Exchange two drivers on one bus
--   Device        the driver and the layers together, on one read
--   Sync          what is used of embassy_sync: channels and signals, with their laws
--   System        the three tasks on their channels (src/main.rs) as a step relation: State what they
--                 share, and the layers as main puts them together, Protocol and Invariant what
--                 every reached state satisfies, Order, Transmission, Completion, Ready, Answering, Serving,
--                 Answers, Telegrams, Counting, Progress and Deadlock what follows, Schedule runs by
--                 evaluation
--   GroupObject   src/group_object.rs
--   Examples      concrete data, and each theorem at it
--
-- How state and operations correspond. A method with &mut self is a function from the state to its
-- outcome and the new state. An outcome is a value, an error, a panic, or a wait that never ends. A
-- frame is its list of bytes; an index out of range, an overflow under overflow checks, an unwrap of
-- an error and a second borrow of a RefCell are panics. u8 and u16 are natural numbers with their
-- wrap-around written out; the build profile decides on overflows. A trait with constants is a
-- record of them that the default methods take as an argument.
--
-- What comes from outside is an argument: Platform has the build profile, resize_default of
-- heapless, with its documented behaviour as two laws, and Ticker::every of embassy_time. The
-- answers of the pool are a list in the state. The serial port is a script of bytes, silences and
-- faults (Driver.Uart.Line), a list of which writes fail, and what was written to it. To the
-- layers, the channels and the signal of the confirmation are the effects in the order in which
-- they happen; System makes each effect a step on the channels, which are an argument (Sync) with
-- the documented behaviour of embassy_sync as laws. A task runs from one wait to the next, and the
-- steps of the tasks come in any order, but a response is taken only when no frame waits, as select
-- polls. A reception, or a transmission, is one step: nothing that it reads or writes is shared but
-- at its end. Examples has an instance with lists.
--
-- No fuel is used: the loops over buffers are recursions on the buffer, and the endless loops are
-- recursions on the list of what wakes them, after which they are pending.
--
-- Not modelled: the set-up of the hardware, the text of the log, files that are not compiled, and the
-- time that a step takes.
pub mod Prelude
pub mod Address
pub mod Settings
pub mod DataPoint
pub mod Frame
pub mod Sync
pub mod Node
pub mod DataLink
pub mod Network
pub mod Transport
pub mod Application
pub mod Driver
pub mod Device
pub mod System
pub mod GroupObject
pub mod Examples

-- ===== src/Examples.antt =====
-- Test data for the development: a platform, telegrams of src/frame.rs, and states of the layers.
pub mod Frames
pub mod Headers
pub mod Connections
pub mod Sessions
pub mod Layers
pub mod Lines
pub mod Devices
pub mod Channels
pub mod Tasks
pub mod Answers
pub mod Objects
use embassy_knx.Prelude.{ℕ, ◌+◌, ◌≤◌, ◌<◌, ◌≡◌, arith, leb, if◌then◌else◌, resize}
use embassy_knx.Prelude.{Bool, true, false, Option, none, some, List, [], ◌∷◌, Bytes}
use embassy_knx.Prelude.Word.{dev}
use embassy_knx.Address.Individual.{IndividualAddress}
use embassy_knx.Frame.Writer.{Platform, capacity}
use embassy_knx.Frame.Dispatch.{Frame, standard}
use embassy_knx.Driver.Uart.{Driver, Line}
use embassy_knx.Node.{Node, Connection, open_idle, closed}

abbrev resize_within : Bytes → ℕ → Option Bytes
resize_within b n = if leb n 264 then some (resize n 0 b) else none

pub resize_within_fits :
    (b : Bytes) (n : ℕ) → n ≤ capacity → resize_within b n ≡ some (resize n 0 b)
resize_within_fits b n h = ground arith

pub resize_within_full : (b : Bytes) (n : ℕ) → capacity < n → resize_within b n ≡ none
resize_within_full b n h = ground arith

-- A build with overflow checks, where a ticker is known by its first instant.
abbrev pub platform : Platform
platform = record {
  profile = dev;
  every = λ secs now. now + secs;
  resize_default = resize_within;
  resize_fits = resize_within_fits;
  resize_full = resize_within_full;
}

-- The device 1.1.5, and the device 1.1.6.
abbrev pub peer : IndividualAddress
peer = record { raw = 0x1105 }

abbrev pub stranger : IndividualAddress
stranger = record { raw = 0x1106 }

-- A telegram of nine bytes from a device of the line 1.1 to 1.1.120.
abbrev pub telegram_from : ℕ → ℕ → Bytes
telegram_from device tpci = 0xb0 ∷ 0x11 ∷ device ∷ 0x11 ∷ 0x78 ∷ 0x61 ∷ tpci ∷ 0 ∷ 0 ∷ []

abbrev pub frame_from : ℕ → ℕ → Frame
frame_from device tpci = standard (telegram_from device tpci)

-- A read of the value of the group 1/1/98.
abbrev pub group_read : Bytes
group_read = 0xbc ∷ 0x11 ∷ 0x05 ∷ 0x09 ∷ 0x62 ∷ 0xe1 ∷ 0 ∷ 0 ∷ 0xdd ∷ []

-- An open connection to 1.1.5 that expects the number 1.
abbrev pub open_connection : ℕ → Connection
open_connection expected = record {
  state = open_idle;
  seq_no_send = 0;
  seq_no_recv = expected;
  rep_count = 0;
  src_addr = some peer;
  connection_timeout = some 6;
  stored_frame = none;
}

abbrev pub closed_connection : Connection
closed_connection = record {
  state = closed;
  seq_no_send = 0;
  seq_no_recv = 0;
  rep_count = 0;
  src_addr = none;
  connection_timeout = none;
  stored_frame = none;
}

abbrev pub node_with : Connection → Node
node_with c = record {
  connection = c;
  borrowed = false;
  pool = true ∷ true ∷ [];
  now = 10;
  trace = [];
}

-- A driver whose line brings the list, and whose writes succeed.
abbrev pub driver_on : List Line → Driver
driver_on rx = record {
  rx = rx;
  tx = [];
  written = [];
  pool = true ∷ [];
  led = false;
  passed = [];
  confirmed = [];
}

-- The bytes of the read behind its first.
abbrev pub rest : Bytes
rest = 0x11 ∷ 0x05 ∷ 0x09 ∷ 0x62 ∷ 0xe1 ∷ 0 ∷ 0 ∷ 0xdd ∷ []

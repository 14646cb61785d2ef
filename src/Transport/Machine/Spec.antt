-- ===== src/Transport/Machine/Spec.antt =====
-- What a connection is to its peers: a link that is shut, or open to one address with the number
-- that is expected next (src/transport_layer.rs). The ticker, the counters of what is sent and the
-- traces that an old connection leaves are forgotten.
pub mod Sessions
use embassy_knx.Prelude.{ℕ, suc, ◌≡◌, ◌≢◌, Option, none, some, List, Bytes}
use embassy_knx.Address.Individual.{IndividualAddress}
use embassy_knx.Frame.Dispatch.{Frame}
use embassy_knx.Node.{Effect, Connection, States, closed}
use embassy_knx.Transport.Telegrams.Content.{IsResponse}
use embassy_knx.Transport.Types.{TransportServiceInd}
use embassy_knx.Transport.Machine.Sending.{
  Kind, is_connect, is_disconnect, is_data, is_ack, is_nak, ind_of, sent,
}

pub data Link : Type 0 where
  shut : Link
  open_to : (peer expected : ℕ) → Link

-- What goes back to the sender.
pub data Reply : Type 0 where
  nothing : Reply
  acknowledge : ℕ → Reply
  hang_up : Reply

-- What a telegram of the kind from `sender` with the number `seq` may do to a link: the link
-- after it, the reply, and what is passed on. A link that is shut may hang up on data or ignore it.
pub data Spec (sender seq : ℕ) : Kind → Link → Link → Reply → Option Kind → Type 0 where
  opens : Spec sender seq is_connect shut (open_to sender 0) nothing (some is_connect)
  connected_twice :
      {peer e : ℕ}
      → peer ≡ sender
      → Spec sender seq is_connect (open_to peer e) shut hang_up (some is_disconnect)
  refused :
      {peer e : ℕ}
      → peer ≢ sender
      → Spec sender seq is_connect (open_to peer e) (open_to peer e) hang_up none
  closes :
      {peer e : ℕ}
      → peer ≡ sender
      → Spec sender seq is_disconnect (open_to peer e) shut nothing (some is_disconnect)
  closed_before : Spec sender seq is_disconnect shut shut nothing none
  delivered :
      {peer e : ℕ}
      → peer ≡ sender
      → seq ≡ e
      → Spec sender seq is_data
          (open_to peer e)
          (open_to peer (suc e))
          (acknowledge seq)
          (some is_data)
  repeated :
      {peer e : ℕ}
      → peer ≡ sender
      → suc seq ≡ e
      → Spec sender seq is_data (open_to peer e) (open_to peer e) (acknowledge seq) none
  out_of_order :
      {peer e : ℕ}
      → peer ≡ sender
      → seq ≢ e
      → suc seq ≢ e
      → Spec sender seq is_data (open_to peer e) (open_to peer e) nothing none
  not_connected : Spec sender seq is_data shut shut hang_up none
  ignored : Spec sender seq is_data shut shut nothing none
  stranger :
      {kind : Kind} {peer e : ℕ}
      → kind ≢ is_connect
      → peer ≢ sender
      → Spec sender seq kind (open_to peer e) (open_to peer e) nothing none
  acknowledged : {l : Link} → Spec sender seq is_ack l l nothing none
  not_acknowledged : {l : Link} → Spec sender seq is_nak l l nothing none

-- The link of a connection.
abbrev peer_link : Option IndividualAddress → ℕ → Link
peer_link none e = shut
peer_link (some a) e = open_to a.raw e

abbrev state_link : States → Connection → Link
state_link closed c = shut
state_link _ c = peer_link c.src_addr c.seq_no_recv

abbrev pub link : Connection → Link
link c = state_link c.state c

abbrev pub passed_on : Frame → Option Kind → Option TransportServiceInd
passed_on frame none = none
passed_on frame (some kind) = some (ind_of kind frame)

-- A reply as a telegram that is sent and confirmed.
abbrev pub Replies : IndividualAddress → Reply → List Effect → List Effect → Type 0
Replies a nothing before now = now ≡ before
Replies a (acknowledge seq) before now =
    (b : Bytes) × IsResponse a seq 0xc2 b × (now ≡ sent before b)
Replies a hang_up before now = (b : Bytes) × IsResponse a 0 0x81 b × (now ≡ sent before b)

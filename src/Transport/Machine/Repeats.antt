-- ===== src/Transport/Machine/Repeats.antt =====
-- What a connection sends of its own accord, and sends again (src/transport_layer.rs, A7 and A9).
use embassy_knx.Prelude.{ℕ, ◌+◌, ◌%◌, ◌<◌, ◌≡◌, ◌∙◌, arith}
use embassy_knx.Prelude.{Bytes, drop, List, [], ◌∷◌, All, Bool, true, some, ok}
use embassy_knx.Prelude.Bits.Tables.{or_7, or_16}
use embassy_knx.Settings
use embassy_knx.Address
use embassy_knx.Address.Individual.{IndividualAddress}
use embassy_knx.Frame.Types.{six}
use embassy_knx.Frame.Writer.{Platform}
use embassy_knx.Frame.Dispatch
use embassy_knx.Frame.Dispatch.{Frame, standard}
use embassy_knx.Frame.Header.{Header, decode}
use embassy_knx.Frame.Standard.Build.{IsWellFormed, Writes-IsWellFormed, try_from_lem}
use embassy_knx.Frame.Standard.Setters.{
  Setter, IsInRange, apply_all, update_all, apply_all-update_all,
}
use embassy_knx.Node.{Node, ◌>>◌}
use embassy_knx.Network
use embassy_knx.Transport.Telegrams.{data_frame}
use embassy_knx.Transport.Actions.{send_data_a7, repeat_data_a9}
use embassy_knx.Transport.Machine.Sending.{sent, ticker}

abbrev data_setters : IndividualAddress → ℕ → List Setter
data_setters dst seq =
    Setter.dst_addr (Address.individual dst)
    ∷ Setter.src_addr Settings.address
    ∷ Setter.hop_count 7
    ∷ Setter.tpci six 0x10
    ∷ Setter.tpci_seq seq
    ∷ []

-- The header that A7 makes of the one of the frame: from this device to the peer, seven hops, and
-- the TPCI of numbered data with the lowest three bits of the sequence number.
abbrev pub data_header : IndividualAddress → ℕ → Header → Header
data_header dst seq h = record h {
  src = 0x1178;
  dst = dst.raw;
  dst_group = 0;
  hop_count = 7;
  tpci = 16 + seq % 8;
}

-- The fields that the setters of A7 join with are free: the frame is marked for no group, and has
-- no TPCI yet.
pub record IsUnaddressed (b : Bytes) : Type 0 where
  pub no_group : (decode b).dst_group ≡ 0
  pub no_tpci : (decode b).tpci ≡ 0

-- A frame with the header for the peer and the data of the one that was given.
pub record IsDataFor (dst : IndividualAddress) (seq : ℕ) (b f : Bytes) : Type 0 where
  pub well_formed : IsWellFormed f
  pub header : decode f ≡ data_header dst seq (decode b)
  pub carries : drop 8 f ≡ drop 8 b

setters_fit :
    (dst : IndividualAddress) (seq : ℕ) → dst.raw < 65536 → All IsInRange (data_setters dst seq)
unfolding Settings.address
setters_fit dst seq fits = (fits, (omega arith, (tt, (tt, (tt, tt)))))

meaning :
    (dst : IndividualAddress) (seq : ℕ) (h : Header)
    → h.dst_group ≡ 0
    → h.tpci ≡ 0
    → h.hop_count < 8
    → update_all (data_setters dst seq) h ≡ data_header dst seq h
unfolding Settings.address
meaning dst seq h no_group no_tpci hops =
    ground (arith, or_7 h.hop_count hops, or_16 (seq % 8) (omega arith))

data_frame-apply_all :
    (env : Platform) (dst : IndividualAddress) (seq : ℕ) (b f : Bytes)
    → apply_all env (data_setters dst seq) b ≡ ok f
    → data_frame env dst seq (standard b) ≡ ok (standard f)
unfolding data_frame
data_frame-apply_all env dst seq b f applied = grind arith

pub data_frame-IsDataFor :
    (env : Platform) (dst : IndividualAddress) (seq : ℕ) (b : Bytes)
    → IsWellFormed b
    → IsUnaddressed b
    → dst.raw < 65536
    → (f : Bytes) × (data_frame env dst seq (standard b) ≡ ok (standard f)) × IsDataFor dst seq b f
data_frame-IsDataFor env dst seq b start blank fits =
    let ss = data_setters dst seq in
    let written = apply_all-update_all env ss b start.long start.bytes (setters_fit dst seq fits) in
    (
      written.out,
      data_frame-apply_all env dst seq b written.out written.succeeds,
      record {
        well_formed = Writes-IsWellFormed ss b start written;
        header =
            written.header ∙ meaning dst seq (decode b) blank.no_group blank.no_tpci (omega arith);
        carries = written.same_data;
      },
    )

-- Numbered data for the peer, sent by A7 and sent again by A9, where two blocks are free, the peer's
-- address is one of 16 bits, and the given frame is well formed, marked for no group, and has no
-- TPCI yet: both times the same telegram is sent and confirmed, a well-formed one from this device
-- to the peer, of numbered data with the next number, modulo 8, and with the data that was given;
-- it is kept for further repetitions, one of which is counted, and the ticker runs.
pub repeated_as_sent :
    (env : Platform) (b : Bytes) (n : Node) {peer : IndividualAddress} {blocks : List Bool}
    → IsWellFormed b
    → IsUnaddressed b
    → n.connection.src_addr ≡ some peer
    → peer.raw < 65536
    → n.pool ≡ true ∷ true ∷ blocks
    → (f : Bytes) × IsDataFor peer n.connection.seq_no_send b f
      × ((send_data_a7 env (standard b) >> repeat_data_a9 env) n ≡ (
        ok tt,
        record n {
          connection = record (n.connection) {
            stored_frame = some (standard f);
            rep_count = 1;
            connection_timeout = ticker env n;
          };
          pool = blocks;
          trace = sent (sent n.trace f) f;
        },
      ))
unfolding send_data_a7 repeat_data_a9 Network.send Dispatch.try_from
repeated_as_sent env b n {peer = peer} start blank known fits free =
    let (f, made, carried) =
      data_frame-IsDataFor env peer n.connection.seq_no_send b start blank fits in
    (f, carried, ground (arith, try_from_lem env f carried.well_formed))

-- ===== src/Transport/Telegrams/Content.antt =====
-- What a connection's responses say on the bus.
use embassy_knx.Prelude.{ℕ, ◌*◌, ◌/◌, ◌%◌, ◌<◌, ◌≡◌, ◌∙◌, arith}
use embassy_knx.Prelude.{bit_or, Bytes, length, List, [], ◌∷◌, All, true, ok}
use embassy_knx.Settings
use embassy_knx.Address
use embassy_knx.Address.Individual.{IndividualAddress}
use embassy_knx.Frame.Types.{system, eight}
use embassy_knx.Frame.Writer.{Platform}
use embassy_knx.Frame.Header.{Header, decode}
use embassy_knx.Frame.Standard.Length.{fresh, new_lem}
use embassy_knx.Frame.Standard.Build.{IsWellFormed, Writes-IsWellFormed}
use embassy_knx.Frame.Standard.Setters.{
  Setter, IsInRange, apply_all, update_all, apply_all-update_all,
}
use embassy_knx.Transport.Telegrams.{response_frame}

abbrev response_setters : IndividualAddress → ℕ → ℕ → List Setter
response_setters dst seq tpci =
    Setter.priority system
    ∷ Setter.dst_addr (Address.individual dst)
    ∷ Setter.src_addr Settings.address
    ∷ Setter.hop_count 7
    ∷ Setter.tpci eight tpci
    ∷ Setter.tpci_seq seq
    ∷ []

-- The header of a response: system priority, from 1.1.120 to `dst`, seven hops, and the TPCI with
-- the lowest three bits of the sequence number joined in.
abbrev pub response_header : IndividualAddress → ℕ → ℕ → Header
response_header dst seq tpci = record {
  kind = 1;
  repeat = 0;
  priority = 0;
  src = 0x1178;
  dst_group = 0;
  dst = dst.raw;
  hop_count = 7;
  lg = 0;
  tpci = bit_or (tpci / 4) (seq % 8);
  apci = tpci % 4 * 256;
}

address_fits : Settings.address.raw < 65536
unfolding Settings.address
address_fits = omega arith

-- The code applies these setters to a fresh telegram.
response_frame-apply_all :
    (env : Platform) (dst : IndividualAddress) (seq tpci : ℕ)
    → response_frame env dst seq tpci true ≡ apply_all env (response_setters dst seq tpci) (fresh 8)
unfolding response_frame
response_frame-apply_all env dst seq tpci = rw (new_lem env 8 (omega arith) (omega arith))

meaning :
    (dst : IndividualAddress) (seq tpci : ℕ)
    → update_all (response_setters dst seq tpci) (decode (fresh 8)) ≡ response_header dst seq tpci
unfolding Settings.address
meaning dst seq tpci = ground arith

pub record IsResponse (dst : IndividualAddress) (seq tpci : ℕ) (b : Bytes) : Type 0 where
  pub well_formed : IsWellFormed b
  pub size : length b ≡ 8
  pub header : decode b ≡ response_header dst seq tpci

-- With a free block a response to any address of 16 bits, with any TPCI, is built without a
-- failure, and it is a well-formed telegram of eight bytes with the header of a response.
pub response_frame-IsResponse :
    (env : Platform) (dst : IndividualAddress) (seq tpci : ℕ)
    → dst.raw < 65536
    → tpci < 256
    → (b : Bytes) × (response_frame env dst seq tpci true ≡ ok b) × IsResponse dst seq tpci b
response_frame-IsResponse env dst seq tpci hd ht =
    let ss = response_setters dst seq tpci in
    let fits : All IsInRange ss = (tt, (hd, (address_fits, (tt, (ht, (tt, tt)))))) in
    let start : IsWellFormed (fresh 8) = omega arith in
    let written = apply_all-update_all env ss (fresh 8) start.long start.bytes fits in
    (
      written.out,
      response_frame-apply_all env dst seq tpci ∙ written.succeeds,
      record {
        well_formed = Writes-IsWellFormed ss (fresh 8) start written;
        size = written.same_length;
        header = written.header ∙ meaning dst seq tpci;
      },
    )

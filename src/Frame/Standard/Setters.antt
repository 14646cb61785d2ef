-- ===== src/Frame/Standard/Setters.antt =====
-- The setters of a standard telegram as operations: what each does, and what it is meant to do.
use embassy_knx.Prelude.{ℕ, ◌+◌, ◌*◌, ◌/◌, ◌%◌, ◌≤◌, ◌<◌, refl, ◌∙◌}
use embassy_knx.Prelude.{bit_or, Bytes, length, List, [], ◌∷◌, All, ok, ◌>>=◌}
use embassy_knx.Address.{Address, individual, group}
use embassy_knx.Address.Individual.{IndividualAddress}
use embassy_knx.Frame.Types.{
  FrameResult, AddressType, Priority, Repeated, TpciBits, ApciBits, addr_type_value, priority_value,
  repeated_value, six, eight, four, ten,
}
use embassy_knx.Frame.Writer
use embassy_knx.Frame.Writer.{Platform}
use embassy_knx.Frame.Standard
use embassy_knx.Frame.Header.{Header, decode, IsBytes, header_ind}
use embassy_knx.Frame.Standard.Writes.{Writes}
use embassy_knx.Frame.Standard.Writes.Control.{set_priority_header, set_repeated_header}
use embassy_knx.Frame.Standard.Writes.Routing.{
  set_addr_type_header, set_hop_count_header, set_src_addr_header, set_dst_individual_header,
  set_dst_group_header,
}
use embassy_knx.Frame.Standard.Writes.Tpdu.{
  set_tpci_six_header, set_tpci_eight_header, set_tpci_seq_header, set_apci_four_header,
  set_apci_ten_header,
}

pub data Setter : Type 0 where
  priority : Priority → Setter
  repeated : Repeated → Setter
  addr_type : AddressType → Setter
  hop_count : ℕ → Setter
  src_addr : IndividualAddress → Setter
  dst_addr : Address → Setter
  tpci : TpciBits → ℕ → Setter
  tpci_seq : ℕ → Setter
  apci : ApciBits → ℕ → Setter

-- The method of the trait that the operation stands for.
abbrev pub apply : Platform → Setter → Bytes → FrameResult Bytes
apply env (priority p) = Writer.set_priority p
apply env (repeated r) = Writer.set_repeated r
apply env (addr_type t) = Writer.set_addr_type (Standard.reader env) t
apply env (hop_count n) = Writer.set_hop_count (Standard.reader env) n
apply env (src_addr a) = Writer.set_src_addr (Standard.reader env) a
apply env (dst_addr a) = Writer.set_dst_addr (Standard.reader env) a
apply env (tpci bits v) = Writer.set_tpci (Standard.reader env) bits v
apply env (tpci_seq v) = Writer.set_tpci_seq (Standard.reader env) v
apply env (apci bits v) = Writer.set_apci (Standard.reader env) bits v

-- What it does to the header: `|=` joins the value with what stands in the field.
abbrev pub update : Setter → Header → Header
update (priority p) h = record h { priority = bit_or h.priority (priority_value p) }
update (repeated r) h = record h { repeat = bit_or h.repeat (repeated_value r) }
update (addr_type t) h = record h { dst_group = bit_or h.dst_group (addr_type_value t) }
update (hop_count n) h = record h { hop_count = bit_or h.hop_count (n % 8) }
update (src_addr a) h = record h { src = a.raw }
update (dst_addr (individual a)) h = record h { dst = a.raw; dst_group = bit_or h.dst_group 0 }
update (dst_addr (group a)) h = record h { dst = a.raw; dst_group = bit_or h.dst_group 1 }
update (tpci six v) h = record h { tpci = bit_or h.tpci (v % 64) }
update (tpci eight v) h = record h { tpci = v / 4; apci = v % 4 * 256 + h.apci % 256 }
update (tpci_seq v) h = record h { tpci = bit_or h.tpci (v % 8) }
update (apci four v) h = record h { apci = bit_or h.apci (v * 64) }
update (apci ten v) h = record h { apci = bit_or h.apci v }

-- The value fits the width of its type or field.
abbrev pub IsInRange : Setter → Type 0
IsInRange (src_addr a) = a.raw < 65536
IsInRange (dst_addr (individual a)) = a.raw < 65536
IsInRange (dst_addr (group a)) = a.raw < 65536
IsInRange (tpci eight v) = v < 256
IsInRange (apci four v) = v < 16
IsInRange (apci ten v) = v < 1024
IsInRange _ = Unit

on_header :
    (env : Platform) (s : Setter) (b0 b1 b2 b3 b4 b5 b6 b7 : ℕ) (rest : Bytes)
    → let b : Bytes = b0 ∷ b1 ∷ b2 ∷ b3 ∷ b4 ∷ b5 ∷ b6 ∷ b7 ∷ rest in
      IsBytes b → IsInRange s → Writes b (update s (decode b)) (apply env s b)
on_header env (priority p) b0 b1 b2 b3 b4 b5 b6 b7 t h r =
    set_priority_header p b0 b1 b2 b3 b4 b5 b6 b7 t h
on_header env (repeated v) b0 b1 b2 b3 b4 b5 b6 b7 t h r =
    set_repeated_header v b0 b1 b2 b3 b4 b5 b6 b7 t h
on_header env (addr_type v) b0 b1 b2 b3 b4 b5 b6 b7 t h r =
    set_addr_type_header env v b0 b1 b2 b3 b4 b5 b6 b7 t h
on_header env (hop_count n) b0 b1 b2 b3 b4 b5 b6 b7 t h r =
    set_hop_count_header env n b0 b1 b2 b3 b4 b5 b6 b7 t h
on_header env (src_addr a) b0 b1 b2 b3 b4 b5 b6 b7 t h r =
    set_src_addr_header env a b0 b1 b2 b3 b4 b5 b6 b7 t h r
on_header env (dst_addr (individual a)) b0 b1 b2 b3 b4 b5 b6 b7 t h r =
    set_dst_individual_header env a b0 b1 b2 b3 b4 b5 b6 b7 t h r
on_header env (dst_addr (group a)) b0 b1 b2 b3 b4 b5 b6 b7 t h r =
    set_dst_group_header env a b0 b1 b2 b3 b4 b5 b6 b7 t h r
on_header env (tpci six v) b0 b1 b2 b3 b4 b5 b6 b7 t h r =
    set_tpci_six_header env v b0 b1 b2 b3 b4 b5 b6 b7 t h
on_header env (tpci eight v) b0 b1 b2 b3 b4 b5 b6 b7 t h r =
    set_tpci_eight_header env v b0 b1 b2 b3 b4 b5 b6 b7 t h r
on_header env (tpci_seq v) b0 b1 b2 b3 b4 b5 b6 b7 t h r =
    set_tpci_seq_header env v b0 b1 b2 b3 b4 b5 b6 b7 t h
on_header env (apci four v) b0 b1 b2 b3 b4 b5 b6 b7 t h r =
    set_apci_four_header env v b0 b1 b2 b3 b4 b5 b6 b7 t h r
on_header env (apci ten v) b0 b1 b2 b3 b4 b5 b6 b7 t h r =
    set_apci_ten_header env v b0 b1 b2 b3 b4 b5 b6 b7 t h r

-- On a buffer of at least eight bytes every setter of a value in range succeeds, joins the value
-- with the field that it is named for (an address, and all eight bits of the TPCI, are replaced),
-- and changes no other field, the length of the buffer, or a byte behind the header.
pub apply-update :
    (env : Platform) (s : Setter) (b : Bytes)
    → 8 ≤ length b
    → IsBytes b
    → IsInRange s
    → Writes b (update s (decode b)) (apply env s b)
apply-update env s =
    header_ind (λ b. IsBytes b → IsInRange s → Writes b (update s (decode b)) (apply env s b))
      (on_header env s)

-- A sequence of setters, and its meaning.
abbrev pub apply_all : Platform → List Setter → Bytes → FrameResult Bytes
apply_all env [] b = ok b
apply_all env (s ∷ ss) b = apply env s b >>= apply_all env ss

abbrev pub update_all : List Setter → Header → Header
update_all [] h = h
update_all (s ∷ ss) h = update_all ss (update s h)

-- A sequence of setters with values in range, on a buffer of at least eight bytes, succeeds and
-- does to the header what its setters do one after the other, and to nothing else.
pub apply_all-update_all :
    (env : Platform) (ss : List Setter) (b : Bytes)
    → 8 ≤ length b
    → IsBytes b
    → All IsInRange ss
    → Writes b (update_all ss (decode b)) (apply_all env ss b)
apply_all-update_all env [] b long bytes r = record {
  out = b;
  succeeds = refl;
  same_length = refl;
  bytes = bytes;
  same_data = refl;
  header = refl;
}
apply_all-update_all env (s ∷ ss) b long bytes r =
    let first = apply-update env s b long bytes r.0 in
    let rest = apply_all-update_all env ss first.out (rw first.same_length long) first.bytes r.1 in
    record {
      out = rest.out;
      succeeds = rw first.succeeds rest.succeeds;
      same_length = rest.same_length ∙ first.same_length;
      bytes = rest.bytes;
      same_data = rest.same_data ∙ first.same_data;
      header = rest.header ∙ rw first.header;
    }

-- ===== src/Frame/Extended/Setters.antt =====
-- The setters of an extended telegram against the fields of its header (src/frame.rs).
use embassy_knx.Prelude.{ℕ, ◌+◌, ◌*◌, ◌/◌, ◌%◌, ◌≤◌, ◌<◌, ◌≡◌, refl, ap, ◌∙◌, arith}
use embassy_knx.Prelude.{bit_or, Bytes, length, drop, [], ◌∷◌, ok}
use embassy_knx.Prelude.Bits.Tables.{mask_3, mask_7, mask_255}
use embassy_knx.Prelude.Bits.Updates.{
  or_field_0_2, or_field_2_2, or_field_2_6, or_field_4_3, or_field_5_1, or_field_7_1,
}
use embassy_knx.Prelude.Bits.Fields.{bit_or_bytes, bit_or-lt}
use embassy_knx.Address.{Address, individual, group}
use embassy_knx.Frame.Types.{
  FrameResult, TpciBits, ApciBits, addr_type_value, priority_value, repeated_value, six, eight,
  four, ten,
}
use embassy_knx.Frame.Writer
use embassy_knx.Frame.Writer.{Platform}
use embassy_knx.Frame.Extended
use embassy_knx.Frame.Header.{Header, IsBytes}
use embassy_knx.Frame.Standard.Setters.{
  Setter, update, IsInRange, priority, repeated, addr_type, hop_count, src_addr, dst_addr, tpci,
  tpci_seq, apci,
}
use embassy_knx.Frame.Extended.Reads.{Reads, decode, extended-decode}

-- The method of the trait that the operation stands for.
abbrev pub perform : Platform → Setter → Bytes → FrameResult Bytes
perform env (priority p) = Writer.set_priority p
perform env (repeated r) = Writer.set_repeated r
perform env (addr_type t) = Writer.set_addr_type (Extended.reader env) t
perform env (hop_count n) = Writer.set_hop_count (Extended.reader env) n
perform env (src_addr a) = Writer.set_src_addr (Extended.reader env) a
perform env (dst_addr a) = Writer.set_dst_addr (Extended.reader env) a
perform env (tpci bits v) = Writer.set_tpci (Extended.reader env) bits v
perform env (tpci_seq v) = Writer.set_tpci_seq (Extended.reader env) v
perform env (apci bits v) = Writer.set_apci (Extended.reader env) bits v

-- A call succeeds and leaves a buffer of bytes as long as `b`, whose header is `h`, and whose
-- data behind the header is that of `b`.
pub record Leaves (b : Bytes) (h : Header) (result : FrameResult Bytes) : Type 0 where
  pub out : Bytes
  pub succeeds : result ≡ ok out
  pub same_length : length out ≡ length b
  pub bytes : IsBytes out
  pub same_data : drop 9 out ≡ drop 9 b
  pub header : decode out ≡ h

-- A call that leaves nine bytes for those of the header.
leaves :
    {u : Header} {r : FrameResult Bytes} (b0 b1 b2 b3 b4 b5 b6 b7 b8 c0 c1 c2 c3 c4 c5 c6 c7 c8 : ℕ)
    (rest : Bytes)
    → IsBytes (b0 ∷ b1 ∷ b2 ∷ b3 ∷ b4 ∷ b5 ∷ b6 ∷ b7 ∷ b8 ∷ rest)
    → r ≡ ok (c0 ∷ c1 ∷ c2 ∷ c3 ∷ c4 ∷ c5 ∷ c6 ∷ c7 ∷ c8 ∷ rest)
    → IsBytes (c0 ∷ c1 ∷ c2 ∷ c3 ∷ c4 ∷ c5 ∷ c6 ∷ c7 ∷ c8 ∷ [])
    → decode (c0 ∷ c1 ∷ c2 ∷ c3 ∷ c4 ∷ c5 ∷ c6 ∷ c7 ∷ c8 ∷ rest) ≡ u
    → Leaves (b0 ∷ b1 ∷ b2 ∷ b3 ∷ b4 ∷ b5 ∷ b6 ∷ b7 ∷ b8 ∷ rest) u r
leaves b0 b1 b2 b3 b4 b5 b6 b7 b8 c0 c1 c2 c3 c4 c5 c6 c7 c8 rest h succeeds bytes header = record {
  out = c0 ∷ c1 ∷ c2 ∷ c3 ∷ c4 ∷ c5 ∷ c6 ∷ c7 ∷ c8 ∷ rest;
  succeeds = succeeds;
  same_length = refl;
  bytes = ground (arith, h, bytes);
  same_data = refl;
  header = header;
}

-- No setter is for the length.
same_lg : (s : Setter) (h : Header) → (update s h).lg ≡ h.lg
same_lg (priority p) h = refl
same_lg (repeated v) h = refl
same_lg (addr_type t) h = refl
same_lg (hop_count n) h = refl
same_lg (src_addr a) h = refl
same_lg (dst_addr (individual a)) h = refl
same_lg (dst_addr (group a)) h = refl
same_lg (tpci six v) h = refl
same_lg (tpci eight v) h = refl
same_lg (tpci_seq v) h = refl
same_lg (apci four v) h = refl
same_lg (apci ten v) h = refl

module _ (env : Platform) (b0 b1 b2 b3 b4 b5 b6 b7 b8 : ℕ) (rest : Bytes)
    (h : IsBytes (b0 ∷ b1 ∷ b2 ∷ b3 ∷ b4 ∷ b5 ∷ b6 ∷ b7 ∷ b8 ∷ rest)) where
  abbrev before : Bytes
  before = b0 ∷ b1 ∷ b2 ∷ b3 ∷ b4 ∷ b5 ∷ b6 ∷ b7 ∷ b8 ∷ rest

  abbrev At : Setter → Type 0
  At s = Leaves before (update s (decode before)) (perform env s before)

  on_control :
      (s : Setter) (c0 c1 : ℕ)
      → perform env s before ≡ ok (c0 ∷ c1 ∷ b2 ∷ b3 ∷ b4 ∷ b5 ∷ b6 ∷ b7 ∷ b8 ∷ rest)
      → (c0 < 256) × (c1 < 256)
      → decode (c0 ∷ c1 ∷ b2 ∷ b3 ∷ b4 ∷ b5 ∷ b6 ∷ b7 ∷ b8 ∷ rest) ≡ update s (decode before)
      → At s
  on_control s c0 c1 succeeds small header =
      leaves b0 b1 b2 b3 b4 b5 b6 b7 b8 c0 c1 b2 b3 b4 b5 b6 b7 b8 rest h succeeds
        (ground (arith, h)) header

  on_tpdu :
      (s : Setter) (c7 c8 : ℕ)
      → perform env s before ≡ ok (b0 ∷ b1 ∷ b2 ∷ b3 ∷ b4 ∷ b5 ∷ b6 ∷ c7 ∷ c8 ∷ rest)
      → (c7 < 256) × (c8 < 256)
      → decode (b0 ∷ b1 ∷ b2 ∷ b3 ∷ b4 ∷ b5 ∷ b6 ∷ c7 ∷ c8 ∷ rest) ≡ update s (decode before)
      → At s
  on_tpdu s c7 c8 succeeds small header =
      leaves b0 b1 b2 b3 b4 b5 b6 b7 b8 b0 b1 b2 b3 b4 b5 b6 c7 c8 rest h succeeds
        (ground (arith, h)) header

  dst_header : (a : Address) → IsInRange (dst_addr a) → At (dst_addr a)
  unfolding Writer.set_dst_addr
  dst_header (individual a) r =
      let u = or_field_7_1 b1 0 h.1.0 (omega arith) in
      let masked = mask_255 a.raw in
      leaves b0 b1 b2 b3 b4 b5 b6 b7 b8 b0 (bit_or b1 0) b2 b3 (a.raw / 256) (a.raw % 256) b6 b7 b8
        rest h (ground arith) (ground (arith, h)) (ground arith)
  dst_header (group a) r =
      let u = or_field_7_1 b1 1 h.1.0 (omega arith) in
      let masked = mask_255 a.raw in
      leaves b0 b1 b2 b3 b4 b5 b6 b7 b8 b0 (bit_or b1 128) b2 b3 (a.raw / 256) (a.raw % 256) b6 b7
        b8 rest h (ground arith) (ground (arith, h)) (ground arith)

  tpci_header : (bits : TpciBits) (v : ℕ) → IsInRange (tpci bits v) → At (tpci bits v)
  unfolding Writer.set_tpci
  tpci_header six v r =
      let u = or_field_2_6 b7 (v % 64) h.1.1.1.1.1.1.1.0 (omega arith) in
      let fits : v * 4 % 256 ≡ v % 64 * 4 = omega arith in
      on_tpdu (tpci six v) (bit_or b7 (v % 64 * 4)) b8 (ground arith) (ground (arith, h))
        (ground arith)
  tpci_header eight v r =
      on_tpdu (tpci eight v) v b8 (ground arith) (ground (arith, h)) (ground (arith, h))

  apci_header : (bits : ApciBits) (v : ℕ) → IsInRange (apci bits v) → At (apci bits v)
  unfolding Writer.set_apci
  apci_header four v r =
      let u = or_field_0_2 b7 (v / 4) h.1.1.1.1.1.1.1.0 (omega arith) in
      let small = bit_or-lt 8 b8 (v % 4 * 64) h.1.1.1.1.1.1.1.1.0 (omega arith) in
      let joined =
        bit_or_bytes (b7 % 4) b8 (v / 4) (v % 4 * 64) h.1.1.1.1.1.1.1.1.0 (omega arith) in
      let whole : v / 4 * 256 + v % 4 * 64 ≡ v * 64 = omega arith in
      let masked = mask_3 v in
      on_tpdu (apci four v) (bit_or b7 (v / 4)) (bit_or b8 (v % 4 * 64)) (ground arith)
        (omega arith, small) (ground arith)
  apci_header ten v r =
      let u = or_field_0_2 b7 (v / 256) h.1.1.1.1.1.1.1.0 (omega arith) in
      let small = bit_or-lt 8 b8 (v % 256) h.1.1.1.1.1.1.1.1.0 (omega arith) in
      let joined = bit_or_bytes (b7 % 4) b8 (v / 256) (v % 256) h.1.1.1.1.1.1.1.1.0 (omega arith) in
      let whole : v / 256 * 256 + v % 256 ≡ v = omega arith in
      let masked = mask_255 v in
      on_tpdu (apci ten v) (bit_or b7 (v / 256)) (bit_or b8 (v % 256)) (ground arith)
        (omega arith, small) (ground arith)

  on_header : (s : Setter) → IsInRange s → At s
  unfolding Writer.set_priority Writer.set_repeated Writer.set_addr_type Writer.set_hop_count
      Writer.set_src_addr Writer.set_tpci_seq
  on_header (priority p) r =
      let small : priority_value p < 4 = ground arith in
      let u = or_field_2_2 b0 (priority_value p) h.0 small in
      on_control (priority p) (bit_or b0 (priority_value p * 4)) b1 (ground arith)
        (omega arith, h.1.0) (ground arith)
  on_header (repeated v) r =
      let small : repeated_value v < 2 = ground arith in
      let u = or_field_5_1 b0 (repeated_value v) h.0 small in
      on_control (repeated v) (bit_or b0 (repeated_value v * 32)) b1 (ground arith)
        (omega arith, h.1.0) (ground arith)
  on_header (addr_type t) r =
      let small : addr_type_value t < 2 = ground arith in
      let u = or_field_7_1 b1 (addr_type_value t) h.1.0 small in
      on_control (addr_type t) b0 (bit_or b1 (addr_type_value t * 128)) (ground arith)
        (h.0, omega arith) (ground arith)
  on_header (hop_count n) r =
      let u = or_field_4_3 b1 (n % 8) h.1.0 (omega arith) in
      let masked = mask_7 n in
      on_control (hop_count n) b0 (bit_or b1 (n % 8 * 16)) (ground arith) (h.0, omega arith)
        (ground arith)
  on_header (src_addr a) r =
      let masked = mask_255 a.raw in
      leaves b0 b1 b2 b3 b4 b5 b6 b7 b8 b0 b1 (a.raw / 256) (a.raw % 256) b4 b5 b6 b7 b8 rest h
        (ground arith) (ground (arith, h)) (ground arith)
  on_header (dst_addr a) r = dst_header a r
  on_header (tpci bits v) r = tpci_header bits v r
  on_header (tpci_seq v) r =
      let u = or_field_2_6 b7 (v % 8) h.1.1.1.1.1.1.1.0 (omega arith) in
      let masked = mask_7 v in
      on_tpdu (tpci_seq v) (bit_or b7 (v % 8 * 4)) b8 (ground arith) (ground (arith, h))
        (ground arith)
  on_header (apci bits v) r = apci_header bits v r

-- On a buffer of at least nine bytes every setter of an extended frame, with a value in range,
-- succeeds. Each reader of a field but `length()`, in each of its modes, then returns its field of
-- the header as it was, or, where the setter is named for the field, as the value joined with it
-- (an address, and all eight bits of the TPCI, are replaced). The length byte of the header, the length of the buffer and the bytes
-- behind the header stay as they were.
pub setter-Reads :
    (env : Platform) (s : Setter) (b : Bytes)
    → 9 ≤ length b
    → IsBytes b
    → IsInRange s
    → (out : Bytes) × (perform env s b ≡ ok out)
      × Reads env out (update s (decode b))
      × ((decode out).lg ≡ (decode b).lg)
      × (length out ≡ length b)
      × (drop 9 out ≡ drop 9 b)
setter-Reads env s (b0 ∷ b1 ∷ b2 ∷ b3 ∷ b4 ∷ b5 ∷ b6 ∷ b7 ∷ b8 ∷ rest) long h r =
    let b : Bytes = b0 ∷ b1 ∷ b2 ∷ b3 ∷ b4 ∷ b5 ∷ b6 ∷ b7 ∷ b8 ∷ rest in
    let w = on_header env b0 b1 b2 b3 b4 b5 b6 b7 b8 rest h s r in
    (
      w.out,
      w.succeeds,
      rw (← w.header) (extended-decode env w.out (omega (arith, long, w.same_length)) w.bytes),
      ap (λ h. h.lg) w.header ∙ same_lg s (decode b),
      w.same_length,
      w.same_data,
    )
setter-Reads env s _ long h r = absurd (omega arith)

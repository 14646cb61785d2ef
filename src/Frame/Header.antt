-- ===== src/Frame/Header.antt =====
-- The fields of a standard telegram in plain arithmetic: what the masks and shifts of
-- src/frame.rs are meant to read and to write.
use embassy_knx.Prelude.{ℕ, zero, suc, ◌+◌, ◌*◌, ◌/◌, ◌%◌, ◌≤◌, ◌<◌, arith}
use embassy_knx.Prelude.{◌∷◌, length, get_or, All, Bytes}
use embassy_knx.Address.{Address, individual, group}
use embassy_knx.Frame.Types.{
  FrameType, AddressType, Priority, Repeated, standard, extended, low, normal, urgent, system,
  repeated, not_repeated,
}

pub record Header : Type 0 where
  pub kind : ℕ
  pub repeat : ℕ
  pub priority : ℕ
  pub src : ℕ
  pub dst_group : ℕ
  pub dst : ℕ
  pub hop_count : ℕ
  pub lg : ℕ
  pub tpci : ℕ
  pub apci : ℕ

abbrev pub decode : Bytes → Header
decode b = record {
  kind = get_or b 0 0 / 128;
  repeat = get_or b 0 0 / 32 % 2;
  priority = get_or b 0 0 / 4 % 4;
  src = get_or b 1 0 * 256 + get_or b 2 0;
  dst_group = get_or b 5 0 / 128;
  dst = get_or b 3 0 * 256 + get_or b 4 0;
  hop_count = get_or b 5 0 / 16 % 8;
  lg = get_or b 5 0 % 16;
  tpci = get_or b 6 0 / 4;
  apci = get_or b 6 0 % 4 * 256 + get_or b 7 0;
}

abbrev pub kind_of : ℕ → FrameType
kind_of zero = extended
kind_of (suc _) = standard

abbrev pub repeated_of : ℕ → Repeated
repeated_of zero = repeated
repeated_of (suc _) = not_repeated

abbrev pub priority_of : ℕ → Priority
priority_of zero = system
priority_of (suc zero) = normal
priority_of (suc (suc zero)) = urgent
priority_of (suc (suc (suc _))) = low

abbrev pub addr_type_of : ℕ → AddressType
addr_type_of zero = AddressType.individual
addr_type_of (suc _) = AddressType.group

abbrev pub dst_of : ℕ → ℕ → Address
dst_of zero a = individual (record { raw = a })
dst_of (suc _) a = group (record { raw = a })

abbrev pub IsBytes : Bytes → Type 0
IsBytes = All (λ x. x < 256)

-- A buffer that holds a header is eight bytes and a rest.
pub header_ind {ℓ} :
    (P : Bytes → Type ℓ)
    → ((b0 b1 b2 b3 b4 b5 b6 b7 : ℕ) (rest : Bytes)
        → P (b0 ∷ b1 ∷ b2 ∷ b3 ∷ b4 ∷ b5 ∷ b6 ∷ b7 ∷ rest))
    → (b : Bytes) → 8 ≤ length b
    → P b
header_ind P f (b0 ∷ b1 ∷ b2 ∷ b3 ∷ b4 ∷ b5 ∷ b6 ∷ b7 ∷ rest) h = f b0 b1 b2 b3 b4 b5 b6 b7 rest
header_ind P f _ h = absurd (omega arith)

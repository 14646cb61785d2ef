-- ===== src/Frame/Standard/Orders.antt =====
-- In which order the fields of a standard telegram may be set (src/frame.rs, `FrameWriter`).
use embassy_knx.Prelude.{
  Option, none, some, ℕ, ◌*◌, ◌%◌, ◌≤◌, ◌≡◌, refl, sym, ap, ◌∙◌, bit_or, Bytes, length, drop, List,
  ◌∷◌, All, ok,
}
use embassy_knx.Prelude.Bits.Joins.{join_swap}
use embassy_knx.Address.{individual, group}
use embassy_knx.Frame.Types.{six, eight, four, ten, priority_value, repeated_value, addr_type_value}
use embassy_knx.Prelude.Bits.Fields.{bit_or-zero}
use mathlib.Core.Quot
use native.Mathlib.Nat.{ℕ_set}
use mathlib.Core.Quot.{Quot}
use embassy_knx.Frame.Header.{Header, decode, IsBytes}
use embassy_knx.Frame.Writer.{Platform}
use embassy_knx.Frame.Standard.Setters.{
  Setter, IsInRange, update, update_all, apply_all, apply_all-update_all,
}

-- What a setter does to a header: an address is replaced, and other fields are joined with a value.
record Act : Type 0 where
  src : Option ℕ
  dst : Option ℕ
  repeat : ℕ
  priority : ℕ
  dst_group : ℕ
  hop_count : ℕ
  tpci : ℕ
  apci : ℕ

abbrev nothing : Act
nothing = record {
  src = none;
  dst = none;
  repeat = 0;
  priority = 0;
  dst_group = 0;
  hop_count = 0;
  tpci = 0;
  apci = 0;
}

abbrev or_old : Option ℕ → ℕ → ℕ
or_old none old = old
or_old (some new) old = new

abbrev act : Act → Header → Header
act e h = record h {
  src = or_old e.src h.src;
  dst = or_old e.dst h.dst;
  repeat = bit_or h.repeat e.repeat;
  priority = bit_or h.priority e.priority;
  dst_group = bit_or h.dst_group e.dst_group;
  hop_count = bit_or h.hop_count e.hop_count;
  tpci = bit_or h.tpci e.tpci;
  apci = bit_or h.apci e.apci;
}

-- All setters but that of all eight bits of the TPCI, which overwrites two fields.
abbrev IsAct : Setter → Type 0
IsAct (Setter.tpci eight v) = ⊥
IsAct _ = Unit

abbrev meaning : Setter → Act
meaning (Setter.priority p) = record nothing { priority = priority_value p }
meaning (Setter.repeated r) = record nothing { repeat = repeated_value r }
meaning (Setter.addr_type t) = record nothing { dst_group = addr_type_value t }
meaning (Setter.hop_count n) = record nothing { hop_count = n % 8 }
meaning (Setter.src_addr a) = record nothing { src = some a.raw }
meaning (Setter.dst_addr (individual a)) = record nothing { dst = some a.raw }
meaning (Setter.dst_addr (group a)) = record nothing { dst = some a.raw; dst_group = 1 }
meaning (Setter.tpci six v) = record nothing { tpci = v % 64 }
meaning (Setter.tpci eight v) = nothing
meaning (Setter.tpci_seq v) = record nothing { tpci = v % 8 }
meaning (Setter.apci four v) = record nothing { apci = v * 64 }
meaning (Setter.apci ten v) = record nothing { apci = v }

update-act : (s : Setter) (h : Header) → IsAct s → update s h ≡ act (meaning s) h
update-act (Setter.priority p) h is_act = simp bit_or-zero
update-act (Setter.repeated r) h is_act = simp bit_or-zero
update-act (Setter.addr_type t) h is_act = simp bit_or-zero
update-act (Setter.hop_count n) h is_act = simp bit_or-zero
update-act (Setter.src_addr a) h is_act = simp bit_or-zero
update-act (Setter.dst_addr (individual a)) h is_act = simp bit_or-zero
update-act (Setter.dst_addr (group a)) h is_act = simp bit_or-zero
update-act (Setter.tpci six v) h is_act = simp bit_or-zero
update-act (Setter.tpci eight v) h is_act = elim is_act [ ]
update-act (Setter.tpci_seq v) h is_act = simp bit_or-zero
update-act (Setter.apci four v) h is_act = simp bit_or-zero
update-act (Setter.apci ten v) h is_act = simp bit_or-zero

abbrev NotBoth : Option ℕ → Option ℕ → Type 0
NotBoth (some a) (some b) = ⊥
NotBoth _ _ = Unit

or_old_comm :
    (p q : Option ℕ) (old : ℕ) → NotBoth p q → or_old p (or_old q old) ≡ or_old q (or_old p old)
or_old_comm none q old h = refl
or_old_comm (some a) none old h = refl
or_old_comm (some a) (some b) old h = elim h [ ]

-- The two setters do not write the same address, and neither overwrites the TPCI.
unfoldable pub Apart : Setter → Setter → Type 0
Apart s t =
    IsAct s
    × IsAct t
    × NotBoth (meaning s).src (meaning t).src
    × NotBoth (meaning s).dst (meaning t).dst

act_comm :
    (e f : Act) (h : Header)
    → NotBoth e.src f.src
    → NotBoth e.dst f.dst
    → act e (act f h) ≡ act f (act e h)
act_comm e f h src dst = rw (
  or_old_comm e.src f.src h.src src,
  or_old_comm e.dst f.dst h.dst dst,
  join_swap h.repeat f.repeat e.repeat,
  join_swap h.priority f.priority e.priority,
  join_swap h.dst_group f.dst_group e.dst_group,
  join_swap h.hop_count f.hop_count e.hop_count,
  join_swap h.tpci f.tpci e.tpci,
  join_swap h.apci f.apci e.apci,
)

update_comm :
    (s t : Setter) (h : Header) → Apart s t → update s (update t h) ≡ update t (update s h)
unfolding Apart
update_comm s t h (one, other, src, dst) =
    rw
      (
        update-act t h other,
        update-act s h one,
        update-act s (act (meaning t) h) one,
        update-act t (act (meaning s) h) other,
      )
      (act_comm (meaning s) (meaning t) h src dst)

-- One sequence of setters from another by exchanging neighbours that are apart.
pub data Reordered : List Setter → List Setter → Type 0 where
  same : {ss : List Setter} → Reordered ss ss
  exchanged : {s t : Setter} {ss : List Setter} → Apart s t → Reordered (s ∷ t ∷ ss) (t ∷ s ∷ ss)
  behind : {s : Setter} {ss ts : List Setter} → Reordered ss ts → Reordered (s ∷ ss) (s ∷ ts)
  then : {ss ts us : List Setter} → Reordered ss ts → Reordered ts us → Reordered ss us

update_all-reordered :
    {ss ts : List Setter} → Reordered ss ts → (h : Header) → update_all ss h ≡ update_all ts h
update_all-reordered same h = refl
update_all-reordered (exchanged {s = s} {t = t} {ss = ss} apart) h =
    ap (update_all ss) (sym (update_comm s t h apart))
update_all-reordered (behind {s = s} rest) h = update_all-reordered rest (update s h)
update_all-reordered (then first second) h =
    update_all-reordered first h ∙ update_all-reordered second h

-- Sequences of setters up to such exchanges.
abbrev pub Plan : Type 0
Plan = Quot Reordered

Header-IsSet : IsSet Header
Header-IsSet = hlevel ℕ_set

-- What a plan does to a header.
abbrev header_of : Plan → Header → Header
header_of p h =
    Quot.lift Header-IsSet (λ ss. update_all ss h) (λ ss ts r. update_all-reordered r h) p

abbrev pub plan : List Setter → Plan
plan = Quot.mk

-- Two sequences of setters that are the same plan, with values in range, on a buffer of at least
-- eight bytes: both succeed, and the two telegrams have the same header, the same length and the
-- same bytes behind the header. A plan is a sequence up to exchanges of neighbours that do not
-- write the same address and do not overwrite all eight bits of the TPCI.
pub apply_all-any_order :
    (env : Platform) (ss ts : List Setter) (b : Bytes)
    → plan ss ≡ plan ts
    → 8 ≤ length b
    → IsBytes b
    → All IsInRange ss
    → All IsInRange ts
    → (one other : Bytes) × (apply_all env ss b ≡ ok one)
      × (apply_all env ts b ≡ ok other)
      × (decode one ≡ decode other)
      × (length one ≡ length other)
      × (drop 8 one ≡ drop 8 other)
apply_all-any_order env ss ts b same_plan long bytes r r' =
    let first = apply_all-update_all env ss b long bytes r in
    let second = apply_all-update_all env ts b long bytes r' in
    (
      first.out,
      second.out,
      first.succeeds,
      second.succeeds,
      first.header ∙ ap (λ p. header_of p (decode b)) same_plan ∙ sym second.header,
      first.same_length ∙ sym second.same_length,
      first.same_data ∙ sym second.same_data,
    )

-- ===== src/Transport/Machine/Spec/Sessions.antt =====
-- Sessions of the abstract connection: what its peers may conclude from its replies
-- (src/transport_layer.rs).
use embassy_knx.Prelude.{ℕ, ◌≡◌, ◌⊎◌, inl, inr, refl, sym, Option, some, List, [], ◌∷◌, ◌++◌}
use embassy_knx.Transport.Machine.Delivery.{up_to}
use embassy_knx.Transport.Machine.Sending.{Kind, is_connect, is_data}
use embassy_knx.Transport.Machine.Spec.{Link, shut, open_to, Reply, acknowledge, Spec}

-- A telegram as the specification sees it, and what the connection does about it.
pub record Turn : Type 0 where
  pub sender : ℕ
  pub seq : ℕ
  pub kind : Kind
  pub reply : Reply
  pub out : Option Kind

-- The turns that the specification allows one after the other, oldest first.
pub data SpecRun : Link → List Turn → Link → Type 0 where
  over : {l : Link} → SpecRun l [] l
  turn :
      {sender seq : ℕ} {kind : Kind} {reply : Reply} {out : Option Kind} {l m r : Link}
      {later : List Turn}
      → Spec sender seq kind l m reply out
      → SpecRun m later r
      → SpecRun l
          (record { sender = sender; seq = seq; kind = kind; reply = reply; out = out } ∷ later)
          r

-- The numbers of the data passed on since the last connect.
abbrev pub passed : List ℕ → Turn → List ℕ
passed log t = by_out t.out
  where
    by_out : Option Kind → List ℕ
    by_out (some is_connect) = []
    by_out (some is_data) = log ++ t.seq ∷ []
    by_out _ = log

abbrev pub IsIn : ℕ → List ℕ → Type 0
IsIn q [] = ⊥
IsIn q (x ∷ xs) = (q ≡ x) ⊎ IsIn q xs

-- An acknowledgement is of a number that was passed on.
abbrev pub IsHonest : List ℕ → Reply → Type 0
IsHonest log (acknowledge q) = IsIn q log
IsHonest log _ = Unit

-- At each turn, by the data passed on until then.
abbrev pub AllHonest : List ℕ → List Turn → Type 0
AllHonest log [] = Unit
AllHonest log (t ∷ later) = IsHonest (passed log t) t.reply × AllHonest (passed log t) later

-- What the link says of the data passed on since it was opened.
abbrev pub Matches : Link → List ℕ → Type 0
Matches shut log = Unit
Matches (open_to peer e) log = log ≡ up_to e

last-IsIn : (q : ℕ) (xs : List ℕ) → IsIn q (xs ++ q ∷ [])
last-IsIn q [] = inl refl
last-IsIn q (x ∷ xs) = inr (last-IsIn q xs)

Spec-IsHonest :
    {sender seq : ℕ} {kind : Kind} {l m : Link} {reply : Reply} {out : Option Kind} (log : List ℕ)
    → Spec sender seq kind l m reply out
    → Matches l log
    → let now =
        passed log (record { sender = sender; seq = seq; kind = kind; reply = reply; out = out }) in
      IsHonest now reply × Matches m now
Spec-IsHonest log Spec.opens h = (tt, refl)
Spec-IsHonest log (Spec.connected_twice same) h = (tt, tt)
Spec-IsHonest log (Spec.refused other) h = (tt, h)
Spec-IsHonest log (Spec.closes same) h = (tt, tt)
Spec-IsHonest log Spec.closed_before h = (tt, tt)
Spec-IsHonest {seq = seq} log (Spec.delivered same next) h = (last-IsIn seq log, rw (h, next))
Spec-IsHonest {seq = seq} log (Spec.repeated same before) h =
    (rw (h, sym before) (last-IsIn seq (up_to seq)), h)
Spec-IsHonest log (Spec.out_of_order same not_next not_before) h = (tt, h)
Spec-IsHonest log Spec.not_connected h = (tt, tt)
Spec-IsHonest log Spec.ignored h = (tt, tt)
Spec-IsHonest log (Spec.stranger no_connect other) h = (tt, h)
Spec-IsHonest log Spec.acknowledged h = (tt, h)
Spec-IsHonest log Spec.not_acknowledged h = (tt, h)

-- Whatever telegrams come, the abstract connection acknowledges only what it has passed on since
-- the last connect.
pub SpecRun-AllHonest :
    {l r : Link} {turns : List Turn} (log : List ℕ)
    → SpecRun l turns r
    → Matches l log
    → AllHonest log turns
SpecRun-AllHonest log over h = tt
SpecRun-AllHonest log (turn step later) h =
    let (honest, now) = Spec-IsHonest log step h in (honest, SpecRun-AllHonest _ later now)

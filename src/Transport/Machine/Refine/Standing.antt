-- ===== src/Transport/Machine/Refine/Standing.antt =====
-- Whether a connection is open, and to whom, from its invariant (src/transport_layer.rs).
use embassy_knx.Prelude.{◌≡◌, inl, inr, refl, ap, is_some, Option-cases, some}
use embassy_knx.Address.Individual.{IndividualAddress}
use embassy_knx.Node.{Connection, States, closed, open_idle, open_wait, connecting}
use embassy_knx.Transport.Machine.Invariant.{Inv, IsSettled}

-- The connection, closed or open to a peer.
pub data LinkState (c : Connection) : Type 0 where
  is_closed : c.state ≡ closed → LinkState c
  is_opened :
      (peer : IndividualAddress) → c.state ≡ open_idle → c.src_addr ≡ some peer → LinkState c

pub Inv-LinkState : (c : Connection) → Inv c → LinkState c
Inv-LinkState c inv = by_state c.state refl inv.settled
  where
    by_state : (s : States) → c.state ≡ s → IsSettled s c → LinkState c
    by_state closed same settled = is_closed same
    by_state open_idle same settled = elim (Option-cases c.src_addr) [
      | inl unknown ↦ absurd (cc (settled.0, ap is_some unknown))
      | inr (peer, known) ↦ is_opened peer same known
    ]
    by_state open_wait same settled = absurd settled
    by_state connecting same settled = absurd settled

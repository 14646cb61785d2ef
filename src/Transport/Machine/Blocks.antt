-- ===== src/Transport/Machine/Blocks.antt =====
-- How many blocks of the pool an indication takes (src/transport_layer.rs, `handle_ind`).
use embassy_knx.Prelude.{
  ℕ, zero, suc, ◌≡◌, ◌⊎◌, inl, inr, refl, arith, Bool, true, List, [], ◌∷◌, ok, err, panic, pending,
}
use embassy_knx.Frame.Types.{FrameResult}
use embassy_knx.Frame.Dispatch.{Frame}
use embassy_knx.Frame.Writer.{Platform}
use embassy_knx.Network
use embassy_knx.DataLink
use embassy_knx.Node.{Node, M, States, closed, rest_of, lift, ◌>>=◌, ◌>>◌, open_idle}
use embassy_knx.Address.Individual.{IndividualAddress}
use embassy_knx.Transport.Choice.{event_of}
use embassy_knx.Transport.Actions.{
  set_state, send_response_frame, new_connection_a1, ack_data_a2, ack_a3, notify_disconect_a5,
  disconnect_a6, reject_a10,
}
use embassy_knx.Transport.Machine.{dispatch, handle_event, handle_ind}
use embassy_knx.Transport.Types.{
  TransportServiceInd, Events, connect_req_same_address_e00, connect_req_new_address_e01,
  disconnect_req_same_address_e02, disconnect_req_new_address_e03, data_connected_e04,
  data_connected_e05,
}

-- At most one block is taken.
abbrev pub TakesOne : {A : Type 0} → M A → Type 0
TakesOne m = (n : Node) → let n' = (m n).1 in (n'.pool ≡ n.pool) ⊎ (n'.pool ≡ rest_of n.pool)

module _ (env : Platform) (frame : Frame) where
  send_response_frame-TakesOne :
      (dst : IndividualAddress) (seq tpci : ℕ) → TakesOne (send_response_frame env dst seq tpci)
  unfolding send_response_frame Network.send DataLink.send
  send_response_frame-TakesOne dst seq tpci n = ground arith

  connect-TakesOne : TakesOne (set_state open_idle >> new_connection_a1 env frame)
  unfolding set_state new_connection_a1
  connect-TakesOne n = ground arith

  ack_data_a2-TakesOne : TakesOne (ack_data_a2 env frame)
  unfolding ack_data_a2
  ack_data_a2-TakesOne n = grind (arith, send_response_frame-TakesOne)

  ack_a3-TakesOne : TakesOne (ack_a3 env frame)
  unfolding ack_a3
  ack_a3-TakesOne n = grind (arith, send_response_frame-TakesOne)

  disconnect_a6-TakesOne : TakesOne (set_state closed >> disconnect_a6 env frame)
  unfolding set_state disconnect_a6
  disconnect_a6-TakesOne n = grind (arith, send_response_frame-TakesOne)

  reject_a10-TakesOne : TakesOne (reject_a10 env frame)
  unfolding reject_a10
  reject_a10-TakesOne n = grind (arith, send_response_frame-TakesOne)

  notify_disconect_a5-TakesOne : TakesOne (set_state closed >> notify_disconect_a5 frame)
  unfolding set_state notify_disconect_a5
  notify_disconect_a5-TakesOne n = inl refl

  dispatch-TakesOne : (e : Events) (s : States) → TakesOne (dispatch env e s frame)
  unfolding dispatch
  dispatch-TakesOne connect_req_same_address_e00 closed n = connect-TakesOne n
  dispatch-TakesOne connect_req_same_address_e00 _ n = disconnect_a6-TakesOne n
  dispatch-TakesOne connect_req_new_address_e01 closed n = connect-TakesOne n
  dispatch-TakesOne connect_req_new_address_e01 _ n = reject_a10-TakesOne n
  dispatch-TakesOne disconnect_req_same_address_e02 closed n = inl refl
  dispatch-TakesOne disconnect_req_same_address_e02 _ n = notify_disconect_a5-TakesOne n
  dispatch-TakesOne disconnect_req_new_address_e03 _ n = inl refl
  dispatch-TakesOne data_connected_e04 closed n = reject_a10-TakesOne n
  dispatch-TakesOne data_connected_e04 _ n = ack_data_a2-TakesOne n
  dispatch-TakesOne data_connected_e05 closed n = reject_a10-TakesOne n
  dispatch-TakesOne data_connected_e05 _ n = ack_a3-TakesOne n
  dispatch-TakesOne _ _ n = inl refl

module _ (env : Platform) (ind : TransportServiceInd) where
  chosen-TakesOne :
      (chosen : FrameResult (Events × Frame))
      → TakesOne (lift chosen >>= λ c. handle_event env c.0 c.1)
  unfolding handle_event
  chosen-TakesOne (ok (e, f)) n = dispatch-TakesOne env f e n.connection.state n
  chosen-TakesOne (err e) n = inl refl
  chosen-TakesOne panic n = inl refl
  chosen-TakesOne pending n = inl refl

  -- An indication takes at most one block.
  pub handle_ind-TakesOne : TakesOne (handle_ind env ind)
  unfolding handle_ind
  handle_ind-TakesOne n = chosen-TakesOne (event_of env n.connection ind) n

-- The first allocations, as many as said, find a block.
abbrev pub Enough : ℕ → List Bool → Type 0
Enough zero pool = Unit
Enough (suc k) [] = ⊥
Enough (suc k) (found ∷ pool) = (found ≡ true) × Enough k pool

pub Enough-next : (k : ℕ) (pool : List Bool) → Enough (suc k) pool → pool ≡ true ∷ rest_of pool
Enough-next k [] h = elim h [ ]
Enough-next k (found ∷ pool) (found_it, others) = rw found_it

Enough-fewer : (k : ℕ) (pool : List Bool) → Enough (suc k) pool → Enough k pool
Enough-fewer zero pool h = tt
Enough-fewer (suc k) [] h = elim h [ ]
Enough-fewer (suc k) (found ∷ pool) (found_it, others) = (found_it, Enough-fewer k pool others)

-- What is left after an indication is enough for one less.
pub Enough-left :
    (k : ℕ) (pool now : List Bool)
    → Enough (suc k) pool
    → (now ≡ pool) ⊎ (now ≡ rest_of pool)
    → Enough k now
Enough-left k pool now h (inl same) = rw same (Enough-fewer k pool h)
Enough-left k [] now h (inr less) = elim h [ ]
Enough-left k (found ∷ pool) now h (inr less) = rw less h.1

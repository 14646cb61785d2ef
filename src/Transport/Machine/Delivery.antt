-- ===== src/Transport/Machine/Delivery.antt =====
-- In which order a connection delivers data.
use embassy_knx.Prelude.{ℕ, zero, suc, ◌≤◌, ◌<◌, ◌≡◌, ◌≢◌, ◌⊎◌, inl, inr, refl, ap, ◌∙◌, arith}
use embassy_knx.Prelude.{Option, some, List, [], ◌∷◌, ◌++◌}
use embassy_knx.Prelude.{ok, err, panic, pending}
use embassy_knx.Prelude.Word.{add8}
use embassy_knx.Frame.Types.{FrameResult}
use embassy_knx.Frame.Dispatch
use embassy_knx.Frame.Dispatch.{Frame}
use embassy_knx.Frame.Dispatch.Cases.{src_addr-Ends}
use embassy_knx.Frame.Writer.{Platform}
use embassy_knx.Node.{Node, States, closed, open_idle, ◌>>◌, ◌>>=◌, lift}
use embassy_knx.Transport.Actions.{
  set_state, new_connection_a1, ack_data_a2, ack_a3, notify_disconect_a5, disconnect_a6, reject_a10,
  new,
}
use embassy_knx.Transport.Choice.{event_of}
use embassy_knx.Transport.Machine.{dispatch, handle_event, handle_ind}
use embassy_knx.Transport.Machine.Invariant.{
  Inv, new-Inv, event_of-e04, handle_ind-Inv, send_response_frame-connection,
}
use embassy_knx.Transport.Types.{
  TransportServiceInd, connect, data_connected, Events, connect_req_same_address_e00,
  connect_req_new_address_e01, disconnect_req_same_address_e02, disconnect_req_new_address_e03,
  data_connected_e04, data_connected_e05,
}

-- What a call that began with `k` as the expected number says of the one after it.
abbrev Counts : Platform → ℕ → FrameResult (Option TransportServiceInd) → ℕ → Type 0
Counts env k (ok (some (connect f))) k' = k' ≡ 0
Counts env k (ok (some (data_connected f))) k' = (Dispatch.tpci_seq env f ≡ ok k) × (k' ≡ suc k)
Counts env k panic k' = Unit
Counts env k _ k' = k' ≡ k

abbrev IsNext : Platform → Frame → ℕ → Type 0
IsNext env f k = (Dispatch.tpci_seq env f ≡ ok k) × (k < 8)

module _ (env : Platform) (frame : Frame) (n : Node) where
  abbrev Counted : FrameResult (Option TransportServiceInd) × Node → Type 0
  Counted run = Counts env n.connection.seq_no_recv run.0 run.1.connection.seq_no_recv

  connect-Counted : Counted ((set_state open_idle >> new_connection_a1 env frame) n)
  unfolding set_state new_connection_a1
  connect-Counted = ground (arith, src_addr-Ends env frame)

  ack_data_a2-Counted :
      IsNext env frame n.connection.seq_no_recv → Counted (ack_data_a2 env frame n)
  unfolding ack_data_a2 add8
  ack_data_a2-Counted h = grind (arith, send_response_frame-connection)

  ack_a3-Counted : Counted (ack_a3 env frame n)
  unfolding ack_a3
  ack_a3-Counted = grind (arith, send_response_frame-connection)

  disconnect_a6-Counted : Counted ((set_state closed >> disconnect_a6 env frame) n)
  unfolding set_state disconnect_a6
  disconnect_a6-Counted = grind (arith, send_response_frame-connection)

  reject_a10-Counted : Counted (reject_a10 env frame n)
  unfolding reject_a10
  reject_a10-Counted = grind (arith, send_response_frame-connection)

  notify_disconect_a5-Counted : Counted ((set_state closed >> notify_disconect_a5 frame) n)
  unfolding set_state notify_disconect_a5
  notify_disconect_a5-Counted = ground arith

  dispatch-Counted :
      (e : Events) (s : States)
      → (e ≡ data_connected_e04 → IsNext env frame n.connection.seq_no_recv)
      → Counted (dispatch env e s frame n)
  unfolding dispatch
  dispatch-Counted connect_req_same_address_e00 closed next = connect-Counted
  dispatch-Counted connect_req_same_address_e00 _ next = disconnect_a6-Counted
  dispatch-Counted connect_req_new_address_e01 closed next = connect-Counted
  dispatch-Counted connect_req_new_address_e01 _ next = reject_a10-Counted
  dispatch-Counted disconnect_req_same_address_e02 closed next = refl
  dispatch-Counted disconnect_req_same_address_e02 _ next = notify_disconect_a5-Counted
  dispatch-Counted disconnect_req_new_address_e03 _ next = refl
  dispatch-Counted data_connected_e04 closed next = reject_a10-Counted
  dispatch-Counted data_connected_e04 _ next = ack_data_a2-Counted (next refl)
  dispatch-Counted data_connected_e05 closed next = reject_a10-Counted
  dispatch-Counted data_connected_e05 _ next = ack_a3-Counted
  dispatch-Counted _ _ next = refl

handle_ind-Counts :
    (env : Platform) (ind : TransportServiceInd) (n : Node)
    → let run = handle_ind env ind n in
      Counts env n.connection.seq_no_recv run.0 run.1.connection.seq_no_recv
unfolding handle_ind
handle_ind-Counts env ind n = after_choice (event_of env n.connection ind) refl
  where
    after_choice :
        (chosen : FrameResult (Events × Frame))
        → event_of env n.connection ind ≡ chosen
        → let run = ◌>>=◌ (lift chosen) (λ c. handle_event env c.0 c.1) n in
          Counts env n.connection.seq_no_recv run.0 run.1.connection.seq_no_recv
    after_choice (ok (e, f)) same =
        dispatch-Counted env f n e n.connection.state
          (λ is_e04. event_of-e04 env n.connection ind (same ∙ ap (λ e. ok (e, f)) is_e04))
    after_choice (err x) same = refl
    after_choice panic same = tt
    after_choice pending same = refl

-- The numbers of the data frames delivered since the last connect, after a call that ended with
-- the result.
abbrev pub log_of : Platform → FrameResult (Option TransportServiceInd) → List ℕ → List ℕ
log_of env (ok (some (connect f))) log = []
log_of env (ok (some (data_connected f))) log = log ++ number (Dispatch.tpci_seq env f)
  where
    number : FrameResult ℕ → List ℕ
    number (ok q) = q ∷ []
    number _ = []
log_of env _ log = log

unless_panic : {A X : Type 0} → FrameResult A → X → X → X
unless_panic panic stop later = stop
unless_panic _ stop later = later

-- A sequence of indications, up to a panic if there is one.
unfoldable pub session : Platform → List TransportServiceInd → List ℕ × Node → List ℕ × Node
unfolding unless_panic
session env [] s = s
session env (ind ∷ inds) (log, n) =
    let (r, n') = handle_ind env ind n in
    let later = session env inds (log_of env r log, n') in unless_panic r (log, n) later

abbrev pub up_to : ℕ → List ℕ
up_to zero = []
up_to (suc k) = up_to k ++ k ∷ []

panic_cases : {A : Type 0} (r : FrameResult A) → (r ≡ panic) ⊎ (r ≢ panic)
panic_cases (ok a) = inr (λ e. cc)
panic_cases (err e) = inr (λ e. cc)
panic_cases panic = inl refl
panic_cases pending = inr (λ e. cc)

goes_on : {A X : Type 0} (r : FrameResult A) (x y : X) → r ≢ panic → unless_panic r x y ≡ y
unfolding unless_panic
goes_on (ok a) x y h = refl
goes_on (err e) x y h = refl
goes_on panic x y h = absurd (h refl)
goes_on pending x y h = refl

log_of-up_to :
    (env : Platform) (r : FrameResult (Option TransportServiceInd)) (log : List ℕ) (k k' : ℕ)
    → Counts env k r k'
    → r ≢ panic
    → log ≡ up_to k
    → log_of env r log ≡ up_to k'
log_of-up_to env (ok (some (connect f))) log k k' c h e = rw c
log_of-up_to env (ok (some (data_connected f))) log k k' c h e = rw (c.0, c.1, e)
log_of-up_to env panic log k k' c h e = absurd (h refl)
log_of-up_to env _ log k k' c h e = rw c e

session-up_to :
    (env : Platform) (inds : List TransportServiceInd) (log : List ℕ) (n : Node)
    → Inv n.connection
    → log ≡ up_to n.connection.seq_no_recv
    → let (log', n') = session env inds (log, n) in
      Inv n'.connection × (log' ≡ up_to n'.connection.seq_no_recv)
unfolding session
session-up_to env [] log n inv h = (inv, h)
session-up_to env (ind ∷ inds) log n inv h =
    let r = (handle_ind env ind n).0 in
    let n' = (handle_ind env ind n).1 in
    elim (panic_cases r) [
      | inl stops ↦ rw stops (inv, h)
      | inr runs ↦ rw (goes_on r (log, n) (session env inds (log_of env r log, n')) runs) (
          session-up_to env inds (log_of env r log) n' (handle_ind-Inv env ind n inv runs)
            (log_of-up_to env r log _ _ (handle_ind-Counts env ind n) runs h))
    ]

-- Whatever indications come to a new connection, in whatever order, up to a call that panics if one
-- does: the data frames that it delivers after its last connect carry the numbers 0, 1, 2, … in
-- order, each once, up to the one before the number expected next. That number is at most 8, so
-- at most eight data frames are delivered.
pub session_in_order :
    (env : Platform) (inds : List TransportServiceInd) (n : Node)
    → n.connection ≡ new
    → let (log, n') = session env inds ([], n) in
      (log ≡ up_to n'.connection.seq_no_recv) × (n'.connection.seq_no_recv ≤ 8)
session_in_order env inds n fresh =
    let (inv, ordered) =
      session-up_to env inds [] n (rw fresh new-Inv) (rw fresh (unfold new in refl)) in
    (ordered, inv.seq_bounded)

-- ===== src/Transport/Machine/Refine/Steps.antt =====
-- The single steps of the connection against its specification (src/transport_layer.rs,
-- `handle_ind`).
use embassy_knx.Prelude.{leb, ◌||◌, ℕ, suc, ◌≤◌, ◌<◌, ◌≡◌, ◌≢◌, ◌⊎◌, inl, inr, refl, arith}
use embassy_knx.Prelude.{Bool, true, false, Bool-cases, Option, none, some, List, ◌∷◌, ok, panic}
use native.Mathlib.Decide.{ℕ_discrete}
use embassy_knx.Prelude.Word.{sub8, Profile, dev, release}
use embassy_knx.Address.Individual
use embassy_knx.Address.Individual.{IndividualAddress}
use embassy_knx.Frame.Types.{FrameResult}
use embassy_knx.Frame.Dispatch
use embassy_knx.Frame.Dispatch.{Frame}
use embassy_knx.Frame.Writer.{Platform}
use embassy_knx.Node.{Node, Connection, closed, open_idle}
use embassy_knx.Transport.Actions.{reject_a10}
use embassy_knx.Transport.Choice.{event_of, data_event, is_from, ack_event, nak_event}
use embassy_knx.Transport.Machine.{handle_ind}
use embassy_knx.Transport.Machine.Sending.{
  Kind, is_connect, is_disconnect, is_ack, is_nak, send_response_frame-sent,
}
use embassy_knx.Transport.Machine.Handshake.{connect_opens}
use embassy_knx.Transport.Types.{
  TransportServiceInd, data_connected, connect, disconnect, ack, nak, data_connected_e04,
  data_connected_e05, data_connected_e06,
}
use embassy_knx.Transport.Machine.Spec.{Link, Reply, Spec, link, passed_on, Replies}

abbrev wraps : Profile → Bool
wraps dev = false
wraps release = true

-- A run from `n` is a step of the specification.
pub record IsStep (sender : IndividualAddress) (seq : ℕ) (kind : Kind) (frame : Frame) (n : Node)
    (run : FrameResult (Option TransportServiceInd) × Node) : Type 0 where
  pub reply : Reply
  pub out : Option Kind
  pub step : Spec sender.raw seq kind (link n.connection) (link run.1.connection) reply out
  pub outcome : run.0 ≡ ok (passed_on frame out)
  pub replies : Replies sender reply n.trace run.1.trace

pub spec-IsStep :
    {sender : IndividualAddress} {seq : ℕ} {kind : Kind} {frame : Frame} {n : Node}
    {run : FrameResult (Option TransportServiceInd) × Node} {l l' : Link} (reply : Reply)
    (out : Option Kind)
    → Spec sender.raw seq kind l l' reply out
    → link n.connection ≡ l
    → run.0 ≡ ok (passed_on frame out)
    → link run.1.connection ≡ l'
    → Replies sender reply n.trace run.1.trace
    → IsStep sender seq kind frame n run
spec-IsStep reply out spec before outcome after replies = record {
  reply = reply;
  out = out;
  step = rw (before, after) spec;
  outcome = outcome;
  replies = replies;
}

-- The number against the expected one, as the guards of `handle_ind` find it: the underflow of the
-- last guard panics with overflow checks.
pub data_event-cases :
    (env : Platform) (c : Connection) (seq : ℕ)
    → seq < 8
    → c.seq_no_recv ≤ 8
    → ((data_event env c seq ≡ ok data_connected_e04) × (seq ≡ c.seq_no_recv))
      ⊎ ((data_event env c seq ≡ ok data_connected_e05) × (suc seq ≡ c.seq_no_recv))
      ⊎ ((data_event env c seq ≡ ok data_connected_e06)
          × (seq ≢ c.seq_no_recv)
          × (suc seq ≢ c.seq_no_recv))
      ⊎ (data_event env c seq ≡ panic)
unfolding data_event sub8
data_event-cases env c seq small bounded = elim (ℕ_discrete seq c.seq_no_recv) [
  | yes next ↦ inl (ground arith, next)
  | no other ↦ elim (ℕ_discrete (suc seq) c.seq_no_recv) [
    | yes last ↦ inr (inl (ground arith, last))
    | no gap ↦ elim (Bool-cases (leb 1 c.seq_no_recv || wraps env.profile)) [
      | inl goes_on ↦ inr (inr (inl (ground arith, other, gap)))
      | inr underflows ↦ inr (inr (inr (ground arith)))
    ]
  ]
]

module _ (env : Platform) (frame : Frame) (n : Node) {sender : IndividualAddress} {seq : ℕ}
    {blocks : List Bool} (from : Dispatch.src_addr env frame ≡ ok sender)
    (numbered : Dispatch.tpci_seq env frame ≡ ok seq) (small : seq < 8)
    (free : n.pool ≡ true ∷ blocks) (fits : sender.raw < 65536) where
  -- A telegram that hangs up without being passed on.
  pub hangs_up :
      {kind : Kind} {l : Link}
      → Spec sender.raw seq kind l l Reply.hang_up none
      → link n.connection ≡ l
      → IsStep sender seq kind frame n (reject_a10 env frame n)
  unfolding reject_a10
  hangs_up spec before =
      let (b, response, told) =
        send_response_frame-sent env sender 0 0x81 n free fits (omega arith) in
      rw (from, told) (spec-IsStep Reply.hang_up none spec before refl before (b, response, refl))

  module _ (shut : n.connection.state ≡ closed) where
    pub is_shut : link n.connection ≡ Link.shut
    is_shut = rw shut refl

    pub shut_connect : IsStep sender seq is_connect frame n (handle_ind env (connect frame) n)
    shut_connect =
        rw (connect_opens env frame n from shut)
          (spec-IsStep Reply.nothing (some is_connect) Spec.opens is_shut refl refl refl)

    pub shut_disconnect :
        IsStep sender seq is_disconnect frame n (handle_ind env (disconnect frame) n)
    unfolding handle_ind event_of is_from Individual.eq
    shut_disconnect =
        let same : handle_ind env (disconnect frame) n ≡ (ok none, n) = ground arith in
        rw same (spec-IsStep Reply.nothing none Spec.closed_before is_shut refl is_shut refl)

  pub acked : IsStep sender seq is_ack frame n (handle_ind env (ack frame) n)
  unfolding handle_ind event_of is_from Individual.eq ack_event
  acked =
      let same : handle_ind env (ack frame) n ≡ (ok none, n) = ground arith in
      rw same (spec-IsStep Reply.nothing none Spec.acknowledged refl refl refl refl)

  pub nacked : IsStep sender seq is_nak frame n (handle_ind env (nak frame) n)
  unfolding handle_ind event_of is_from Individual.eq nak_event
  nacked =
      let same : handle_ind env (nak frame) n ≡ (ok none, n) = ground arith in
      rw same (spec-IsStep Reply.nothing none Spec.not_acknowledged refl refl refl refl)

  -- A data frame for the peer of the connection, by its event.
  module _ {peer : IndividualAddress} (known : n.connection.src_addr ≡ some peer)
      (ours : peer.raw ≡ sender.raw) where
    pub shut_next :
        n.connection.state ≡ closed
        → data_event env n.connection seq ≡ ok data_connected_e04
        → handle_ind env (data_connected frame) n ≡ reject_a10 env frame n
    unfolding handle_ind event_of is_from Individual.eq
    shut_next shut event = ground arith

    pub shut_last :
        n.connection.state ≡ closed
        → data_event env n.connection seq ≡ ok data_connected_e05
        → handle_ind env (data_connected frame) n ≡ reject_a10 env frame n
    unfolding handle_ind event_of is_from Individual.eq
    shut_last shut event = ground arith

    pub any_gap :
        data_event env n.connection seq ≡ ok data_connected_e06
        → handle_ind env (data_connected frame) n ≡ (ok none, n)
    unfolding handle_ind event_of is_from Individual.eq
    any_gap event = ground arith

    pub any_underflow :
        data_event env n.connection seq ≡ panic
        → (handle_ind env (data_connected frame) n).0 ≡ panic
    unfolding handle_ind event_of is_from Individual.eq
    any_underflow event = ground arith

  -- Data of another sender than the peer is ignored.
  pub other_data :
      (peer : Option IndividualAddress)
      → n.connection.src_addr ≡ peer
      → is_from env peer frame ≡ ok false
      → handle_ind env (data_connected frame) n ≡ (ok none, n)
  unfolding handle_ind event_of
  other_data peer known other = ground arith

  module _ (opened : n.connection.state ≡ open_idle) {peer : IndividualAddress}
      (known : n.connection.src_addr ≡ some peer) (other : peer.raw ≢ sender.raw) where
    pub open_refuses : handle_ind env (connect frame) n ≡ reject_a10 env frame n
    unfolding handle_ind event_of is_from Individual.eq
    open_refuses = ground arith

    pub open_ignores : handle_ind env (disconnect frame) n ≡ (ok none, n)
    unfolding handle_ind event_of is_from Individual.eq
    open_ignores = ground arith

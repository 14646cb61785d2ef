-- ===== src/Transport/Machine/Refine.antt =====
-- The connection does what its specification says (src/transport_layer.rs, `handle_ind`).
pub mod Steps
pub mod Standing
pub mod Sessions
use embassy_knx.Prelude.{
  is_some, Option-cases, ℕ, suc, ◌+◌, ◌≤◌, ◌<◌, ◌≡◌, ◌≢◌, ◌⊎◌, inl, inr, refl, sym, ap, ◌∙◌, arith,
}
use embassy_knx.Prelude.{
  Bool, true, false, Bool-cases, ==_iff, ◌==◌, Option, none, some, List, ◌∷◌, Bytes, ok, panic,
}
use native.Mathlib.Decide.{ℕ_discrete}
use embassy_knx.Prelude.Word.{sub8, Profile, dev, release}
use embassy_knx.Address.Individual
use embassy_knx.Address.Individual.{IndividualAddress}
use embassy_knx.Frame.Types.{FrameResult}
use embassy_knx.Frame.Dispatch
use embassy_knx.Frame.Dispatch.{Frame}
use embassy_knx.Frame.Writer.{Platform}
use embassy_knx.Node.{Node, Connection, closed, open_idle, open_wait, connecting, States}
use embassy_knx.Transport.Telegrams.Content.{IsResponse}
use embassy_knx.Transport.Actions.{reject_a10}
use embassy_knx.Transport.Choice.{event_of, data_event, is_from, ack_event, nak_event}
use embassy_knx.Transport.Machine.{handle_ind}
use embassy_knx.Transport.Machine.Invariant.{Inv, IsSettled}
use embassy_knx.Transport.Machine.Sending.{
  Kind, is_connect, is_disconnect, is_data, is_ack, is_nak, ind_of, sent, send_response_frame-sent,
}
use embassy_knx.Transport.Machine.Handshake.{connect_opens, reconnect_closes, disconnect_closes}
use embassy_knx.Transport.Machine.DataFrames.{
  next_delivered, repeated_acknowledged, gap_dropped, first_gap,
}
use embassy_knx.Transport.Machine.Refine.Steps.{
  IsStep, spec-IsStep, data_event-cases, hangs_up, is_shut, shut_connect, shut_disconnect, acked,
  nacked, shut_next, shut_last, any_gap, any_underflow, other_data, open_refuses, open_ignores,
}
use embassy_knx.Transport.Types.{
  TransportServiceInd, data_connected, connect, disconnect, ack, nak, data_connected_e04,
  data_connected_e05, data_connected_e06,
}
use embassy_knx.Transport.Machine.Refine.Standing.{LinkState, is_closed, is_opened, Inv-LinkState}
use embassy_knx.Transport.Machine.Spec
use embassy_knx.Transport.Machine.Spec.{Link, Reply, Spec, link, passed_on, Replies}

module _ (env : Platform) (frame : Frame) (n : Node) {sender : IndividualAddress} {seq : ℕ}
    {blocks : List Bool} (from : Dispatch.src_addr env frame ≡ ok sender)
    (numbered : Dispatch.tpci_seq env frame ≡ ok seq) (small : seq < 8)
    (free : n.pool ≡ true ∷ blocks) (fits : sender.raw < 65536) where
  module _ (inv : Inv n.connection) where
    shut_data :
        n.connection.state ≡ closed
        → (handle_ind env (data_connected frame) n).0 ≢ panic
        → IsStep sender seq is_data frame n (handle_ind env (data_connected frame) n)
    unfolding is_from Individual.eq
    shut_data shut ends =
        let silent : handle_ind env (data_connected frame) n ≡ (ok none, n)
            → IsStep sender seq is_data frame n (handle_ind env (data_connected frame) n) =
          λ same. rw same (
            spec-IsStep Reply.nothing none Spec.ignored
              (is_shut env frame n from numbered small free fits shut) refl
              (is_shut env frame n from numbered small free fits shut) refl) in
        elim (Option-cases n.connection.src_addr) [
          | inl unknown ↦
              silent (other_data env frame n from numbered small free fits none unknown refl)
          | inr (peer, known) ↦ elim (ℕ_discrete peer.raw sender.raw) [
            | no other ↦ silent (
                other_data env frame n from numbered small free fits (some peer) known
                  (ground arith))
            | yes ours ↦ elim (data_event-cases env n.connection seq small inv.seq_bounded) [
              | inl (event, _) ↦
                  rw (shut_next env frame n from numbered small free fits known ours shut event) (
                    hangs_up env frame n from numbered small free fits Spec.not_connected
                      (is_shut env frame n from numbered small free fits shut))
              | inr (inl (event, _)) ↦
                  rw (shut_last env frame n from numbered small free fits known ours shut event) (
                    hangs_up env frame n from numbered small free fits Spec.not_connected
                      (is_shut env frame n from numbered small free fits shut))
              | inr (inr (inl (event, _, _))) ↦
                  silent (any_gap env frame n from numbered small free fits known ours event)
              | inr (inr (inr event)) ↦
                  absurd (
                    ends (any_underflow env frame n from numbered small free fits known ours event))
            ]
          ]
        ]

    module _ (opened : n.connection.state ≡ open_idle) {peer : IndividualAddress}
        (known : n.connection.src_addr ≡ some peer) where
      is_open : link n.connection ≡ Link.open_to peer.raw n.connection.seq_no_recv
      is_open = rw (opened, known) refl

      known_as : peer.raw ≡ sender.raw → n.connection.src_addr ≡ some sender
      known_as ours = known ∙ ap (λ raw. some (record { raw = raw })) ours

      stays :
          (kind : Kind) {run : FrameResult (Option TransportServiceInd) × Node}
          → Spec sender.raw seq kind
              (Link.open_to peer.raw n.connection.seq_no_recv)
              (Link.open_to peer.raw n.connection.seq_no_recv)
              Reply.nothing
              none
          → run ≡ (ok none, n)
          → IsStep sender seq kind frame n run
      stays kind spec same = rw same (spec-IsStep Reply.nothing none spec is_open refl is_open refl)

      open_connect : IsStep sender seq is_connect frame n (handle_ind env (connect frame) n)
      open_connect = elim (ℕ_discrete peer.raw sender.raw) [
        | yes ours ↦
            let (b, response, runs) =
              reconnect_closes env frame n from opened (known_as ours) free fits in
            rw runs (
              spec-IsStep Reply.hang_up (some is_disconnect) (Spec.connected_twice ours) is_open
                refl refl (b, response, refl))
        | no other ↦
            rw (open_refuses env frame n from numbered small free fits opened known other)
              (hangs_up env frame n from numbered small free fits (Spec.refused other) is_open)
      ]

      open_disconnect :
          IsStep sender seq is_disconnect frame n (handle_ind env (disconnect frame) n)
      open_disconnect = elim (ℕ_discrete peer.raw sender.raw) [
        | yes ours ↦ rw (disconnect_closes env frame n from opened (known_as ours)) (
            spec-IsStep Reply.nothing (some is_disconnect) (Spec.closes ours) is_open refl refl
              refl)
        | no other ↦
            stays is_disconnect (Spec.stranger (λ same. cc) other)
              (open_ignores env frame n from numbered small free fits opened known other)
      ]

      open_data :
          (handle_ind env (data_connected frame) n).0 ≢ panic
          → IsStep sender seq is_data frame n (handle_ind env (data_connected frame) n)
      unfolding is_from Individual.eq
      open_data ends = elim (ℕ_discrete peer.raw sender.raw) [
        | no other ↦
            stays is_data (Spec.stranger (λ same. cc) other) (
              other_data env frame n from numbered small free fits (some peer) known (ground arith))
        | yes ours ↦ elim (data_event-cases env n.connection seq small inv.seq_bounded) [
          | inl (event, next) ↦
              let (b, response, runs) =
                next_delivered env frame n opened (known_as ours) from numbered next free fits in
              rw runs (
                spec-IsStep (Reply.acknowledge seq) (some is_data) (Spec.delivered ours next)
                  is_open refl (rw (opened, known) (ap (Link.open_to peer.raw) (omega arith)))
                  (b, response, refl))
          | inr (inl (event, last)) ↦
              let (b, response, runs) =
                repeated_acknowledged env frame n opened (known_as ours) from numbered (omega arith)
                  inv.seq_bounded free fits in
              rw runs (
                spec-IsStep (Reply.acknowledge seq) none (Spec.repeated ours last) is_open refl
                  (rw (opened, known) refl) (b, response, refl))
          | inr (inr (inl (event, other, gap))) ↦
              stays is_data (Spec.out_of_order ours other gap)
                (any_gap env frame n from numbered small free fits known ours event)
          | inr (inr (inr event)) ↦
              absurd
                (ends (any_underflow env frame n from numbered small free fits known ours event))
        ]
      ]

    by_standing :
        (kind : Kind)
        → LinkState n.connection
        → (handle_ind env (ind_of kind frame) n).0 ≢ panic
        → IsStep sender seq kind frame n (handle_ind env (ind_of kind frame) n)
    by_standing is_connect (is_closed shut) ends =
        shut_connect env frame n from numbered small free fits shut
    by_standing is_connect (is_opened peer opened known) ends = open_connect opened known
    by_standing is_disconnect (is_closed shut) ends =
        shut_disconnect env frame n from numbered small free fits shut
    by_standing is_disconnect (is_opened peer opened known) ends = open_disconnect opened known
    by_standing is_data (is_closed shut) ends = shut_data shut ends
    by_standing is_data (is_opened peer opened known) ends = open_data opened known ends
    by_standing is_ack standing ends = acked env frame n from numbered small free fits
    by_standing is_nak standing ends = nacked env frame n from numbered small free fits

-- What the connection does with a telegram of any kind is a step of the specification: its link,
-- the reply that is sent and confirmed, and what is passed on. The connection satisfies its
-- invariant, a block is free, the sender's address is one of 16 bits, the number one of three, and
-- the call does not panic.
pub handle_ind-refines :
    (env : Platform) (kind : Kind) (frame : Frame) (n : Node) {sender : IndividualAddress} {seq : ℕ}
    {blocks : List Bool}
    → Dispatch.src_addr env frame ≡ ok sender
    → Dispatch.tpci_seq env frame ≡ ok seq
    → seq < 8
    → n.pool ≡ true ∷ blocks
    → sender.raw < 65536
    → Inv n.connection
    → (handle_ind env (ind_of kind frame) n).0 ≢ panic
    → IsStep sender seq kind frame n (handle_ind env (ind_of kind frame) n)
handle_ind-refines env kind frame n from numbered small free fits inv ends =
    by_standing env frame n from numbered small free fits inv kind (Inv-LinkState n.connection inv)
      ends

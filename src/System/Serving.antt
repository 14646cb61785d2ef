-- ===== src/System/Serving.antt =====
-- Reads that come one after the other on the line, and their answers (src/main.rs,
-- src/ncn51_driver.rs, src/application_layer.rs).
use embassy_knx.Prelude.{
  ℕ, ◌≡◌, refl, sym, ap, ◌∙◌, bit_and, List, [], ◌∷◌, ◌++◌, All, Bytes, length, Bool, true, suc,
}
use mathlib.Core.List.{append_assoc, append-nil}
use embassy_knx.Device.{IsGroupRead}
use embassy_knx.Frame.Dispatch.{Frame, standard}
use embassy_knx.Frame.Writer.{Platform}
use embassy_knx.Sync.{Sync}
use embassy_knx.Node.{Node}
use embassy_knx.Driver.Uart
use embassy_knx.Driver.Uart.{Driver, Line, byte, silence, ConStatus, con_ok}
use embassy_knx.Driver.Receive.Reading.{line_of}
use embassy_knx.Driver.Receive.Checks.{IsTelegram}
use embassy_knx.System.{System, Event, init, Runs, unmoved}
use embassy_knx.System.Order.{frames_queued}
use embassy_knx.System.Ready.{IsReady, init-IsReady}
use embassy_knx.System.Answering.{confirmations, exchange, IsReply, exchanged}

-- A telegram that asks, and the bytes of the echo of its answer.
pub record Asking : Type 0 where
  pub ctrl : ℕ
  pub rest : Bytes
  pub echo : Bytes

pub record IsAsking (q : Asking) : Type 0 where
  pub telegram : IsTelegram (q.ctrl ∷ q.rest)
  pub asks : IsGroupRead (q.ctrl ∷ q.rest)
  pub starts : bit_and q.ctrl 0xd3 ≡ 0x90
  pub nine : length q.echo ≡ 9

-- What comes on the line: each read, a silence, and the echo and the confirmation of its answer.
abbrev pub line_with : List Asking → List Line → List Line
line_with [] after = after
line_with (q ∷ qs) after =
    line_of (q.ctrl ∷ q.rest) (silence ∷ line_of q.echo (byte 0x8b ∷ line_with qs after))

-- A free block for each.
abbrev pub blocks_for : List Asking → List Bool → List Bool
blocks_for [] pool = pool
blocks_for (q ∷ qs) pool = true ∷ blocks_for qs pool

-- What the driver writes, read by read.
abbrev pub exchanges : List Asking → List Bytes → Bytes
exchanges (q ∷ qs) (front ∷ fronts) = exchange (q.ctrl ∷ q.rest) front ++ exchanges qs fronts
exchanges qs fronts = []

-- The answers as the layers queue them, with the last byte free, and a confirmation of each.
abbrev pub queued : List Bytes → List Frame
queued [] = []
queued (front ∷ fronts) = standard (front ++ 0 ∷ []) ∷ queued fronts

abbrev pub confirmed_all : List Bytes → List ConStatus
confirmed_all [] = []
confirmed_all (front ∷ fronts) = con_ok ∷ confirmed_all fronts

-- Two parts of a log.
continued :
    {A : Type 0} (before : List A) {between now : List A} (xs ys : List A)
    → between ≡ before ++ xs
    → now ≡ between ++ ys
    → now ≡ before ++ (xs ++ ys)
continued before xs ys first second = second ∙ ap (λ l. l ++ ys) first ∙ append_assoc before xs ys

module _ (sync : Sync) (env : Platform) (d : Driver) (n : Node) where
  -- From a state in which the tasks are ready.
  served :
      (qs : List Asking) {es : List Event} {s : System sync} (after : List Line)
      (pool blocks : List Bool)
      → All IsAsking qs
      → Runs sync env (init sync d n) es s
      → IsReady sync s
      → s.driver.rx ≡ line_with qs after
      → s.driver.pool ≡ blocks_for qs pool
      → s.node.pool ≡ blocks_for qs blocks
      → (fronts : List Bytes) × All IsReply fronts
        × (length fronts ≡ length qs)
        × (es' : List Event) × (t : System sync) × Runs sync env (init sync d n) es' t
        × IsReady sync t
        × (frames_queued es' ≡ frames_queued es ++ queued fronts)
        × (confirmations es' ≡ confirmations es ++ confirmed_all fronts)
        × (t.driver.rx ≡ after)
        × (t.driver.written ≡ s.driver.written ++ exchanges qs fronts)
  served [] {es = es} {s = s} after pool blocks all runs ready line free unused = (
    [],
    tt,
    refl,
    es,
    s,
    runs,
    ready,
    sym (append-nil (frames_queued es)),
    sym (append-nil (confirmations es)),
    line,
    sym (append-nil s.driver.written),
  )
  served (q ∷ qs) {es = es} {s = s} after pool blocks (asking, others) runs ready line free unused =
      let (front, reply, es', t, runs', ready', queues, confirms, left, free', unused', writes) =
        exchanged sync env q.ctrl q.rest d n runs ready _ (blocks_for qs pool) asking.telegram
          asking.asks asking.starts line free unused q.echo asking.nine refl in
      let (fronts, replies, same, es'', u, runs'', ready'', queues', confirms', left', writes') =
        served qs after pool blocks others runs' ready' left free' unused' in
      (
        front ∷ fronts,
        (reply, replies),
        ap suc same,
        es'',
        u,
        runs'',
        ready'',
        continued (frames_queued es) _ (queued fronts) queues queues',
        continued (confirmations es) _ (confirmed_all fronts) confirms confirms',
        left',
        continued s.driver.written _ (exchanges qs fronts) writes writes',
      )

  -- Any number of reads that come on the line one after the other are answered in turn, by the
  -- three tasks started as `main` starts them. Each telegram is a read of a group value, followed
  -- by a silence and by the echo of its answer (any nine bytes) and the confirmation of the
  -- transceiver; there is a free block for each in both pools, and writes succeed. Then there is a
  -- run of the tasks in which the driver writes, read by read, the acknowledgement and the services
  -- of one telegram, which is whole and carries the value 1 of one bit. Those telegrams are all
  -- that the layers queue, in that order; they get one confirmation for each, and at the end the
  -- tasks are ready for the next telegram and the rest of the line is left.
  pub reads_answered_in_turn :
      (qs : List Asking) (after : List Line) (pool blocks : List Bool)
      → All IsAsking qs
      → d.rx ≡ line_with qs after
      → d.pool ≡ blocks_for qs pool
      → d.tx ≡ []
      → n.pool ≡ blocks_for qs blocks
      → (fronts : List Bytes) × All IsReply fronts
        × (length fronts ≡ length qs)
        × (es : List Event) × (t : System sync) × Runs sync env (init sync d n) es t
        × IsReady sync t
        × (frames_queued es ≡ queued fronts)
        × (confirmations es ≡ confirmed_all fronts)
        × (t.driver.rx ≡ after)
        × (t.driver.written ≡ exchanges qs fronts)
  unfolding init Uart.new
  reads_answered_in_turn qs after pool blocks all line free writes unused =
      served qs after pool blocks all unmoved (init-IsReady sync d n writes) line free unused

-- ===== src/Device.antt =====
-- The device as a whole: a read on the bus, through src/ncn51_driver.rs and the layers, to the
-- answer (src/main.rs).
use embassy_knx.Prelude.{ℕ, ◌/◌, ◌<◌, ◌≡◌, refl, sym, ap, ◌∙◌, bit_and}
use embassy_knx.Prelude.{List, [], ◌∷◌, ◌++◌, Bytes, take, take-drop, Bool, true, false, ok}
use mathlib.Core.List.{append_assoc}
use embassy_knx.Address.{group}
use embassy_knx.DataPoint.{b1}
use embassy_knx.Frame.Types.{normal, six, four}
use embassy_knx.Frame.Header.{decode, dst_of}
use embassy_knx.Frame.Reader
use embassy_knx.Frame.Writer.{Platform}
use embassy_knx.Frame.Dispatch
use embassy_knx.Frame.Dispatch.{Frame, standard}
use embassy_knx.Frame.Standard.Reads.{Reads, Reads-decode}
use embassy_knx.Node.{Node, Effect, con_reset, enqueue, con_wait, indicate, group_value_read}
use embassy_knx.Application
use embassy_knx.Application.{from_bus, response, res_group_value_read}
use embassy_knx.Application.Response
use embassy_knx.Application.Laws.{IsAnswer}
use embassy_knx.Application.Reads.{read_answered}
use embassy_knx.Transport.Layer.{frame_arrives}
use embassy_knx.Driver.Uart.{Driver, Line, silence}
use embassy_knx.Driver.Receive.Reading.{line_of}
use embassy_knx.Driver.Receive.Checks.{IsTelegram}
use embassy_knx.Driver.Run.{run_step, line_read}
use embassy_knx.Driver.Run.Rounds.{telegram_passed_on}
use embassy_knx.Driver.Exchange.{sealed-IsTelegram}

-- A read of a group value: data to a group other than 0 with the APCI of a read.
pub record IsGroupRead (b : Bytes) : Type 0 where
  pub to_group : (decode b).dst_group ≡ 1
  pub other : 0 < (decode b).dst
  pub plain : (decode b).tpci ≡ 0
  pub read : (decode b).apci / 64 ≡ 0

-- The telegram goes from this device to the transceiver, which waits for its confirmation.
abbrev pub answer_trace : Bytes → List Effect
answer_trace a = indicate (group_value_read 0) ∷ con_reset ∷ enqueue (standard a) ∷ con_wait ∷ []

module _ (env : Platform) (b : Bytes) (telegram : IsTelegram b) (asks : IsGroupRead b) where
  reads : Reads env b (decode b)
  reads = Reads-decode env b telegram.well_formed.long telegram.well_formed.bytes

  pub dst_is : Dispatch.dst_addr env (standard b) ≡ ok (group (record { raw = (decode b).dst }))
  unfolding Dispatch.dst_addr
  dst_is = reads.reads_dst ∙ ap (λ k. ok (dst_of k (decode b).dst)) asks.to_group

  pub tpci_is : Dispatch.tpci env six (standard b) ≡ ok 0
  unfolding Dispatch.tpci
  tpci_is = reads.reads_tpci ∙ ap ok asks.plain

  pub apci_is : Dispatch.apci env four (standard b) ≡ ok 0
  unfolding Dispatch.apci
  apci_is = reads.reads_apci_four ∙ ap ok asks.read

-- A telegram with a read of a group value that comes on the line before a silence is passed on by
-- the driver, and the layers make of it one telegram with a free last byte, which carries the value
-- 1 of one bit and is a whole telegram once its checksum is in that byte. Blocks are free, writes
-- succeed, and the connection's cell is free.
pub read-answered :
    (env : Platform) (ctrl : ℕ) (rest : Bytes) (d : Driver) (n : Node) (later : List Line)
    {pool blocks : List Bool}
    → IsTelegram (ctrl ∷ rest)
    → IsGroupRead (ctrl ∷ rest)
    → bit_and ctrl 0xd3 ≡ 0x90
    → d.rx ≡ line_of (ctrl ∷ rest) (silence ∷ later)
    → d.pool ≡ true ∷ pool
    → d.tx ≡ []
    → n.borrowed ≡ false
    → n.pool ≡ true ∷ blocks
    → (front : Bytes) × IsAnswer (b1 1) normal (front ++ 0 ∷ [])
      × IsTelegram (front ++ Reader.checksum (front ++ 0 ∷ []) ∷ [])
      × ((run_step env line_read d).1.passed ≡ d.passed ++ standard (ctrl ∷ rest) ∷ [])
      × ((Application.run env
            (from_bus (frame_arrives (standard (ctrl ∷ rest)))
              ∷ response (res_group_value_read (Response.answer (group_value_read 0)))
              ∷ [])
            n).1.trace
          ≡ n.trace ++ answer_trace (front ++ 0 ∷ []))
read-answered env ctrl rest d n later telegram asks std line free writes cell unused =
    let b : Bytes = ctrl ∷ rest in
    let passes = telegram_passed_on env ctrl rest d telegram std line free writes in
    let (a, answers, runs) =
      read_answered env (standard b) n (dst_is env b telegram asks) asks.other
        (tpci_is env b telegram asks) (apci_is env b telegram asks) cell refl unused in
    let front : Bytes = take 8 a in
    let whole : a ≡ front ++ 0 ∷ [] = sym (take-drop 8 a) ∙ ap (λ s. front ++ s) answers.carries in
    let sealed_answers : IsAnswer (b1 1) normal (front ++ 0 ∷ []) = rw (sym whole) answers in
    (
      front,
      sealed_answers,
      sealed-IsTelegram front sealed_answers.well_formed,
      rw passes,
      rw (
        runs,
        append_assoc n.trace (indicate (group_value_read 0) ∷ [])
            (con_reset ∷ enqueue (standard a) ∷ con_wait ∷ []),
        sym whole,
      ),
    )

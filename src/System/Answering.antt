-- ===== src/System/Answering.antt =====
-- A read on the line and its answer on the line, by the three tasks together (src/main.rs,
-- src/ncn51_driver.rs, src/application_layer.rs).
use embassy_knx.Prelude.{ℕ, ◌+◌, ◌<◌, ◌≡◌, refl, sym, ap, ◌∙◌, arith, bit_and}
use embassy_knx.Prelude.{not, List, [], ◌∷◌, ◌++◌, Bytes, take, take-drop, length, Bool, true, ok}
use mathlib.Core.List.{append_assoc}
use embassy_knx.DataPoint.{b1}
use embassy_knx.Device
use embassy_knx.Device.{IsGroupRead}
use embassy_knx.Frame.Types.{normal}
use embassy_knx.Frame.Reader
use embassy_knx.Frame.Dispatch.{Frame, standard}
use embassy_knx.Frame.Writer.{Platform}
use embassy_knx.Sync.{Sync}
use embassy_knx.Node.{Node, con_reset, enqueue, con_wait, indicate, group_value_read}
use embassy_knx.Application.{ApplicationServiceRes, res_group_value_read}
use embassy_knx.Application.Laws.{IsAnswer, respond_answers}
use embassy_knx.Application.Reads.{group_indicated, response_step}
use embassy_knx.Application.Response
use embassy_knx.Driver.Uart.{Driver, Line, byte, silence, ConStatus, con_ok}
use embassy_knx.Driver.Receive.Reading.{line_of}
use embassy_knx.Driver.Receive.Checks.{IsTelegram}
use embassy_knx.Driver.Receive.RoundTrip.{acks, destination}
use embassy_knx.Driver.Transmit.Writes.{services}
use embassy_knx.Driver.Transmit.Protocol.{send_frame_lem}
use embassy_knx.Driver.Exchange.{sealed-IsTelegram}
use embassy_knx.Driver.Run
use embassy_knx.Driver.Run.{line_read, frame_waits, after_send}
use embassy_knx.Driver.Run.Rounds.{telegram_passed_on}
use embassy_knx.System.{
  System, Event, init, Runs, moved, driver_reads, driver_passes, app_hears, app_indicates,
  main_hears, main_answers, app_responds, line_round, frame_passed, telegram_heard, indicated,
  indication_taken, response_given, response_taken, confirmed,
}
use embassy_knx.System.Moves.{passed_through, nothing_waits}
use embassy_knx.System.Order.{frames_queued}
use embassy_knx.System.Invariant.{Runs-Inv}
use embassy_knx.System.Ready.{IsReady, Protocol-listens, IsReady-again}
use embassy_knx.System.Completion.{transmission_completes}

-- The answer to a read of the value.
abbrev reply : ApplicationServiceRes
reply = res_group_value_read (Response.answer (group_value_read 0))

-- What happens from a read on the line to its response, newest first, before what was.
abbrev answering : Frame → List Event → List Event
answering f es =
    response_taken reply
    ∷ response_given reply
    ∷ indication_taken (group_value_read 0)
    ∷ indicated (group_value_read 0)
    ∷ telegram_heard f
    ∷ frame_passed f
    ∷ line_round (f ∷ [])
    ∷ es

-- The statuses that the data link layer got.
abbrev pub confirmations : List Event → List ConStatus
confirmations [] = []
confirmations (confirmed status ∷ es) = confirmations es ++ status ∷ []
confirmations (_ ∷ es) = confirmations es

-- The driver behind a read: it has toggled the LED and acknowledged the telegram.
abbrev behind : Bytes → Driver → List Line → List Bool → Driver
behind b d later pool = record d {
  rx = later;
  pool = pool;
  written = d.written ++ acks (destination b);
  led = not d.led;
  passed = [];
}

abbrev one : 1 < 256
one = omega arith

-- An answer is of nine bytes, of which the last is free.
answer-parts :
    (a : Bytes)
    → IsAnswer (b1 1) normal a
    → (x : ℕ) × (xs : Bytes) × (a ≡ x ∷ xs ++ 0 ∷ []) × (length a ≡ 9)
answer-parts [] answers = absurd (omega (arith, answers.well_formed.long))
answer-parts (x ∷ rest) answers = (
  x,
  take 7 rest,
  ap (λ s. x ∷ s) (sym (take-drop 7 rest) ∙ ap (λ s. take 7 rest ++ s) answers.carries),
  sym answers.well_formed.agrees ∙ ap (λ h. h.lg + 8) answers.header,
)

-- The bytes that the driver writes for a read and its answer.
abbrev pub exchange : Bytes → Bytes → Bytes
exchange b front =
    acks (destination b) ++ services 0 (front ++ Reader.checksum (front ++ 0 ∷ []) ∷ [])

-- A sent answer: whole, with the value 1 of one bit, and its last byte the checksum on the line.
abbrev pub IsReply : Bytes → Type 0
IsReply front =
    IsAnswer (b1 1) normal (front ++ 0 ∷ [])
    × IsTelegram (front ++ Reader.checksum (front ++ 0 ∷ []) ∷ [])

module _ (sync : Sync) (env : Platform) (ctrl : ℕ) (rest : Bytes) (d : Driver) (n : Node)
    {es : List Event} {s : System sync} (runs : Runs sync env (init sync d n) es s)
    (ready : IsReady sync s) (later : List Line) (pool : List Bool) {blocks : List Bool}
    (telegram : IsTelegram (ctrl ∷ rest)) (asks : IsGroupRead (ctrl ∷ rest))
    (std : bit_and ctrl 0xd3 ≡ 0x90) (line : s.driver.rx ≡ line_of (ctrl ∷ rest) (silence ∷ later))
    (block : s.driver.pool ≡ true ∷ pool) (unused : s.node.pool ≡ true ∷ blocks) where
  -- From the read to the response of the layers.
  responded :
      (a : Bytes) × IsAnswer (b1 1) normal a
      × (t : System sync) × Runs sync env (init sync d n) (answering (standard (ctrl ∷ rest)) es) t
      × (t.node.trace ≡ con_reset ∷ enqueue (standard a) ∷ con_wait ∷ [])
      × (t.driver ≡ behind (ctrl ∷ rest) s.driver later pool)
      × IsReady sync (record t { node = record t.node { trace = [] } })
      × (t.node.pool ≡ blocks)
  responded =
      let b : Bytes = ctrl ∷ rest in
      let f : Frame = standard b in
      let passes : Run.run_step env line_read s.driver
          ≡ (ok tt, record (behind b s.driver later pool) { passed = f ∷ [] }) =
        telegram_passed_on env ctrl rest s.driver telegram std line block ready.writes
        ∙ ap (λ fs. (ok tt, record (behind b s.driver later pool) { passed = fs ++ f ∷ [] }))
            ready.handed in
      let (stage, free, _, _, _) = Runs-Inv sync env d n runs in
      let listens = Protocol-listens stage ready.idle in
      let begun = moved runs (driver_reads ready.handed listens passes) in
      let (c, c', puts, gets, quiet) = passed_through sync f s.frame_channel_tx ready.frames_free in
      let handed = moved begun (driver_passes refl puts) in
      let hears =
        group_indicated env f s.node (Device.dst_is env b telegram asks) asks.other
          (Device.tpci_is env b telegram asks) (Device.apci_is env b telegram asks) free in
      let heard = moved handed (app_hears ready.idle gets hears) in
      let (i, i', shows, takes, told_all) =
        passed_through sync (group_value_read 0) s.service_channel_rx ready.indications_free in
      let told =
        moved heard
          (app_indicates (ap (λ es. es ++ indicate (group_value_read 0) ∷ []) ready.idle) shows) in
      let taken = moved told (main_hears ready.answered takes) in
      let (r, r', gives, finds, taken_all) =
        passed_through sync reply s.service_channel_tx ready.responses_free in
      let answered = moved taken (main_answers refl gives) in
      let n' : Node = record s.node { trace = [] } in
      let (a, answers, responds) = respond_answers env (b1 1) normal n' one unused in
      let ends = response_step env n' ∙ responds in
      (
        a,
        answers,
        _,
        moved answered (app_responds refl (nothing_waits sync c' quiet.0) finds ends),
        refl,
        refl,
        record {
          idle = refl;
          handed = refl;
          writes = ready.writes;
          answered = refl;
          frames_free = quiet;
          indications_free = told_all;
          responses_free = taken_all;
        },
        refl,
      )

  -- From the read to its answer on the line, after which the tasks are ready for the next one.
  pub exchanged :
      (echo : Bytes) {after : List Line}
      → length echo ≡ 9
      → later ≡ line_of echo (byte 0x8b ∷ after)
      → (front : Bytes) × IsReply front
        × (es' : List Event) × (t : System sync) × Runs sync env (init sync d n) es' t
        × IsReady sync t
        × (frames_queued es' ≡ frames_queued es ++ standard (front ++ 0 ∷ []) ∷ [])
        × (confirmations es' ≡ confirmations es ++ con_ok ∷ [])
        × (t.driver.rx ≡ after)
        × (t.driver.pool ≡ pool)
        × (t.node.pool ≡ blocks)
        × (t.driver.written ≡ s.driver.written ++ exchange (ctrl ∷ rest) front)
  unfolding Run.run_step after_send
  exchanged echo {after = after} nine echoed =
      let (a, answers, t, runs', begins, driver_is, ready', blocks_left) = responded in
      let (x, xs, whole, long) = answer-parts a answers in
      let front : Bytes = x ∷ xs in
      let same : IsAnswer (b1 1) normal (front ++ 0 ∷ []) = rw (sym whole) answers in
      let nine_sent : length (front ++ 0 ∷ []) ≡ 9 = sym (ap length whole) ∙ long in
      let begun : Driver = behind (ctrl ∷ rest) s.driver later pool in
      let sends =
        send_frame_lem env x xs echo 0 0x8b begun {later = after} (omega (arith, nine_sent))
          (nine ∙ sym nine_sent) (omega arith) ready.writes echoed in
      let told = (Runs-Inv sync env d n runs).3 in
      let done : Driver = record begun {
        rx = after;
        written = begun.written ++ services 0 (front ++ Reader.checksum (front ++ 0 ∷ []) ∷ []);
        confirmed = s.driver.confirmed ++ con_ok ∷ [];
      } in
      let ends : Run.run_step env (frame_waits (standard (front ++ 0 ∷ []))) t.driver
          ≡ (ok tt, done) =
        rw (driver_is, sends) in
      let (status, u, once, node_now, driver_now, shares, reach) =
        transmission_completes sync env d n runs' (standard (front ++ 0 ∷ []))
          (rw (sym whole) begins) (ap (λ d. d.passed) driver_is) ends in
      (
        front,
        (same, sealed-IsTelegram front same.well_formed),
        _,
        u,
        reach,
        IsReady-again sync t ready' node_now driver_now refl ready.writes shares,
        refl,
        ap (λ cs. confirmations es ++ cs) (sym once ∙ ap (λ cs. cs ++ con_ok ∷ []) told),
        ap (λ d. d.rx) driver_now,
        ap (λ d. d.pool) driver_now,
        ap (λ n. n.pool) node_now ∙ blocks_left,
        ap (λ d. d.written) driver_now
            ∙ append_assoc s.driver.written (acks (destination (ctrl ∷ rest))) _,
      )

-- ===== src/System/Answers.antt =====
-- What the device sends: the way of a response from src/main.rs to the channel of the driver.
use embassy_knx.Prelude.{
  inl, inr, ◌≡◌, refl, ap, ◌∙◌, arith, Bytes, All, All-append, List, [], ◌∷◌, ◌++◌, Bool, true,
  false, ok, panic,
}
use embassy_knx.DataPoint.{b1}
use embassy_knx.Frame.Types.{normal}
use embassy_knx.Frame.Dispatch
use embassy_knx.Frame.Dispatch.{Frame, standard}
use embassy_knx.Frame.Standard
use embassy_knx.Frame.Writer
use embassy_knx.Frame.Writer.{Platform}
use embassy_knx.Sync.{Sync}
use embassy_knx.Node.{
  answer, Node, Effect, con_reset, enqueue, con_wait, ApplicationServiceInd, group_value_read,
}
use embassy_knx.Driver.Uart.{Driver}
use embassy_knx.Application.{
  ApplicationServiceRes, res_group_value_read, response, run_step, respond, unwrap,
}
use embassy_knx.Application.Laws.{IsAnswer, respond_answers}
use embassy_knx.Application.Response.{to_transport}
use embassy_knx.Application.Response
use embassy_knx.Application.Effects.{IsHearing, from_bus-IsHeard, response-IsAnswered}
use embassy_knx.Transport.Layer.{frame_arrives, tick}
use embassy_knx.System.Order.{to_list, frames_queued}
use embassy_knx.System.{
  System, Event, init, Step, Runs, service_size, driver_reads, driver_passes, driver_takes,
  driver_sends, app_hears, app_ticks, clock, app_responds, app_resets, app_enqueues, app_waits,
  app_indicates, main_hears, main_answers, unmoved, moved,
}

-- A response that `main` gives.
abbrev pub IsGiven : ApplicationServiceRes → Type 0
IsGiven res = (i : ApplicationServiceInd) × (res ≡ res_group_value_read (Response.answer i))

-- A frame that carries the value 1 of one bit as the answer to a read.
abbrev pub IsAnswerFrame : Frame → Type 0
IsAnswerFrame f = (b : Bytes) × (f ≡ standard b) × IsAnswer (b1 1) normal b

abbrev pub SendsAnswer : Effect → Type 0
SendsAnswer (enqueue f) = IsAnswerFrame f
SendsAnswer _ = Unit

answer-new : (i : ApplicationServiceInd) → Response.answer i ≡ Response.new 0 (b1 1) normal
unfolding Response.answer
answer-new (group_value_read asap) = refl

sending-SendsAnswer :
    (b : Bytes)
    → IsAnswer (b1 1) normal b
    → (before : List Effect) {now : List Effect}
    → now ≡ before ++ con_reset ∷ enqueue (standard b) ∷ con_wait ∷ []
    → before ≡ []
    → All SendsAnswer now
sending-SendsAnswer b answers before does idle =
    rw (does, idle) (tt, ((b, refl, answers), (tt, tt)))

abbrev from_main : ApplicationServiceRes
from_main = res_group_value_read (Response.new 0 (b1 1) normal)

module _ (env : Platform) where
  -- Without a free block the response is an error, which `unwrap!` makes a panic.
  no_block : (n : Node) → answer n.pool ≡ false → (respond env from_main n).0 ≡ panic
  unfolding respond unwrap to_transport Response.new Dispatch.from_datapoint Writer.from_datapoint
      Standard.new
  no_block n full = ground arith

  respond-SendsAnswer :
      (pool : List Bool) (n : Node) {n' : Node}
      → n.pool ≡ pool
      → n.trace ≡ []
      → respond env from_main n ≡ (ok tt, n')
      → All SendsAnswer n'.trace
  respond-SendsAnswer [] n blocks idle runs = absurd (cc (no_block n (rw blocks refl), runs))
  respond-SendsAnswer (false ∷ later) n blocks idle runs =
      absurd (cc (no_block n (rw blocks refl), runs))
  respond-SendsAnswer (true ∷ later) n {n' = n'} blocks idle runs =
      let (b, answers, sent) = respond_answers env (b1 1) normal n (omega arith) blocks in
      let does : n'.trace ≡ n.trace ++ con_reset ∷ enqueue (standard b) ∷ con_wait ∷ [] = cc in
      sending-SendsAnswer b answers n.trace does idle

  -- A response of `main` makes the layers queue an answer, unless they panic for want of a block.
  given-SendsAnswer :
      (res : ApplicationServiceRes) (n : Node) {n' : Node}
      → IsGiven res
      → n.trace ≡ []
      → run_step env (response res) n ≡ (ok tt, n')
      → All SendsAnswer n'.trace
  unfolding run_step
  given-SendsAnswer res n (i, given) idle runs =
      respond-SendsAnswer n.pool n refl idle (rw (given, answer-new i) at runs)

hearing-SendsAnswer : {todo : List Effect} → IsHearing todo → All SendsAnswer todo
hearing-SendsAnswer (inl none_left) = rw none_left tt
hearing-SendsAnswer (inr one_left) = rw one_left (tt, tt)

module _ (sync : Sync) where
  -- The responses on their way are those of `main`, and so are the frames made of them.
  abbrev Answers : List Event → System sync → Type 0
  Answers es s =
      All IsGiven (sync.held s.service_channel_tx)
      × All IsGiven (to_list s.answering)
      × All SendsAnswer s.node.trace
      × All IsAnswerFrame (frames_queued es)
      × (s.node.borrowed ≡ false)

  init-Answers : (d : Driver) (n : Node) → Answers [] (init sync d n)
  unfolding init
  init-Answers d n =
      (rw (sync.new_held {A = ApplicationServiceRes} service_size) tt, tt, tt, tt, refl)

  module _ (env : Platform) where
    Step-Answers :
        {e : Event} (es : List Event) {s t : System sync}
        → Step sync env s e t
        → Answers es s
        → Answers (e ∷ es) t
    Step-Answers es (driver_reads empty listens runs) all = all
    Step-Answers es (driver_passes ready puts) all = all
    Step-Answers es (driver_takes empty listens gets) all = all
    Step-Answers es (driver_sends busy runs) all = all
    Step-Answers es {s = s} (app_hears {f = f} idle gets runs) (waits, given, does, sent, free) =
        let (heard, gives_back, keeps) = from_bus-IsHeard env (frame_arrives f) s.node idle free in
        let ends = ap (λ run. run.1) runs in
        (
          waits,
          given,
          hearing-SendsAnswer (rw (← ends) heard),
          sent,
          rw (← ends) (gives_back ∙ free),
        )
    Step-Answers es {s = s} (app_ticks idle runs) (waits, given, does, sent, free) =
        let (heard, gives_back, keeps) = from_bus-IsHeard env tick s.node idle free in
        let ends = ap (λ run. run.1) runs in
        (
          waits,
          given,
          hearing-SendsAnswer (rw (← ends) heard),
          sent,
          rw (← ends) (gives_back ∙ free),
        )
    Step-Answers es (clock now) all = all
    Step-Answers es {s = s} (app_responds {res = res} idle quiet gets runs)
          (waits, given, does, sent, free) =
        let (first, others) = rw (sync.receive_held gets) at waits in
        let (sends, gives_back, keeps) = response-IsAnswered env res s.node idle runs in
        (others, given, given-SendsAnswer env res s.node first idle runs, sent, gives_back ∙ free)
    Step-Answers es (app_resets todo) (waits, given, does, sent, free) =
        (waits, given, (rw todo at does).1, sent, free)
    Step-Answers es (app_enqueues {f = f} todo puts) (waits, given, does, sent, free) =
        let (first, others) = rw todo at does in
        (
          waits,
          given,
          others,
          All-append IsAnswerFrame (frames_queued es) (f ∷ []) sent (first, tt),
          free,
        )
    Step-Answers es (app_waits todo gets) (waits, given, does, sent, free) =
        (waits, given, (rw todo at does).1, sent, free)
    Step-Answers es (app_indicates todo puts) (waits, given, does, sent, free) =
        (waits, given, (rw todo at does).1, sent, free)
    Step-Answers es (main_hears {i = i} awaits gets) (waits, given, does, sent, free) =
        (waits, ((i, refl), tt), does, sent, free)
    Step-Answers es {s = s} (main_answers {res = res} ready puts) (waits, given, does, sent, free) =
        (
          rw (sync.send_held puts) (
              All-append IsGiven (sync.held s.service_channel_tx) (res ∷ []) waits
                (rw ready at given)),
          tt,
          does,
          sent,
          free,
        )

    Runs-Answers :
        (d : Driver) (n : Node) {es : List Event} {s : System sync}
        → Runs sync env (init sync d n) es s
        → Answers es s
    Runs-Answers d n unmoved = init-Answers d n
    Runs-Answers d n (moved {es = es} before step) = Step-Answers es step (Runs-Answers d n before)

    -- Whatever the line brings and in whatever order the tasks run, every frame that the layers
    -- queue for the driver is a well-formed telegram from this device to the group 1/1/98 that
    -- answers a read with the value 1 of one bit; the device sends nothing else.
    pub only_answers_queued :
        (d : Driver) (n : Node) {es : List Event} {s : System sync}
        → Runs sync env (init sync d n) es s
        → All IsAnswerFrame (frames_queued es)
    only_answers_queued d n runs = (Runs-Answers d n runs).3

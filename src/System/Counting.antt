-- ===== src/System/Counting.antt =====
-- How much the device sends in the states that the three tasks reach.
use embassy_knx.Prelude.{
  ℕ, suc, ◌+◌, ◌≤◌, ◌≡◌, inl, inr, refl, sym, ap, ◌∙◌, arith, false, length, length-append, List,
  [], ◌∷◌, ◌++◌,
}
use embassy_knx.Frame.Writer.{Platform}
use embassy_knx.Sync.{Sync}
use embassy_knx.Node.{Node, Effect, enqueue, indicate, ApplicationServiceInd}
use embassy_knx.Driver.Uart.{Driver}
use embassy_knx.Transport.Layer
use embassy_knx.Transport.Layer.{frame_arrives, tick}
use embassy_knx.Application.{run_step, from_bus}
use embassy_knx.Application.Effects.{IsHearing, IsSending, from_bus-IsHeard, response-IsAnswered}
use embassy_knx.System.Order.{
  frames_heard, frames_queued, indications, responses, answers, to_list, Runs-InOrder,
}
use embassy_knx.System.{
  System, Event, init, Step, Runs, driver_reads, driver_passes, driver_takes, driver_sends,
  app_hears, app_ticks, clock, app_responds, app_resets, app_enqueues, app_waits, app_indicates,
  main_hears, main_answers, unmoved, moved,
}

-- The frames and the indications that the layers have yet to give.
abbrev to_queue : List Effect → ℕ
to_queue [] = 0
to_queue (enqueue f ∷ es) = suc (to_queue es)
to_queue (_ ∷ es) = to_queue es

abbrev to_indicate : List Effect → ℕ
to_indicate [] = 0
to_indicate (indicate i ∷ es) = suc (to_indicate es)
to_indicate (_ ∷ es) = to_indicate es

hearing-le : {es : List Effect} → IsHearing es → (to_queue es ≡ 0) × (to_indicate es ≤ 1)
hearing-le (inl none_left) = rw none_left (refl, omega arith)
hearing-le (inr one_left) = rw one_left (refl, omega arith)

sending-one : {es : List Effect} → IsSending es → (to_queue es ≡ 1) × (to_indicate es ≡ 0)
sending-one (f, sends) = rw sends (refl, refl)

-- A tick makes the layers do nothing.
tick-trace : (env : Platform) (n : Node) → (run_step env (from_bus tick) n).1.trace ≡ n.trace
unfolding run_step Layer.receive
tick-trace env n = ground arith

module _ (sync : Sync) where
  -- What is given and what is yet to be given, against what was taken.
  abbrev Counts : List Event → System sync → Type 0
  Counts es s =
      (length (frames_queued es) + to_queue s.node.trace ≡ length (responses es))
      × (length (indications es) + to_indicate s.node.trace ≤ length (frames_heard es))
      × (s.node.borrowed ≡ false)

  module _ (env : Platform) where
    Step-Counts :
        {e : Event} (es : List Event) {s t : System sync}
        → Step sync env s e t
        → Counts es s
        → Counts (e ∷ es) t
    Step-Counts es (driver_reads empty listens runs) counts = counts
    Step-Counts es (driver_passes ready puts) counts = counts
    Step-Counts es (driver_takes empty listens gets) counts = counts
    Step-Counts es (driver_sends busy runs) counts = counts
    Step-Counts es {s = s} (app_hears {f = f} idle gets runs) (outs, ins, free) =
        let (heard, gives_back, keeps) = from_bus-IsHeard env (frame_arrives f) s.node idle free in
        let ends = ap (λ run. run.1) runs in
        let (queues, indicates) = hearing-le (rw ends at heard) in
        let before = ap to_queue idle in
        let before' = ap to_indicate idle in
        (
          omega (arith, outs, queues, before),
          omega (arith, ins, indicates, before', length-append (frames_heard es) (f ∷ [])),
          rw (← ends) (gives_back ∙ free),
        )
    Step-Counts es {s = s} (app_ticks idle runs) (outs, ins, free) =
        let (heard, gives_back, keeps) = from_bus-IsHeard env tick s.node idle free in
        let ends = ap (λ run. run.1) runs in
        let same = ap (λ (n : Node). n.trace) (sym ends) ∙ tick-trace env s.node in
        (rw same outs, rw same ins, rw (← ends) (gives_back ∙ free))
    Step-Counts es (clock now) counts = counts
    Step-Counts es {s = s} (app_responds {res = res} idle quiet gets runs) (outs, ins, free) =
        let (does, gives_back, keeps) = response-IsAnswered env res s.node idle runs in
        let (queues, indicates) = sending-one does in
        let before = ap to_queue idle in
        let before' = ap to_indicate idle in
        (
          omega (arith, outs, queues, before, length-append (responses es) (res ∷ [])),
          omega (arith, ins, indicates, before'),
          gives_back ∙ free,
        )
    Step-Counts es (app_resets todo) (outs, ins, free) =
        (omega (arith, outs, ap to_queue todo), omega (arith, ins, ap to_indicate todo), free)
    Step-Counts es (app_enqueues {f = f} todo puts) (outs, ins, free) = (
      omega (arith, outs, ap to_queue todo, length-append (frames_queued es) (f ∷ [])),
      omega (arith, ins, ap to_indicate todo),
      free,
    )
    Step-Counts es (app_waits todo gets) (outs, ins, free) =
        (omega (arith, outs, ap to_queue todo), omega (arith, ins, ap to_indicate todo), free)
    Step-Counts es (app_indicates {i = i} todo puts) (outs, ins, free) = (
      omega (arith, outs, ap to_queue todo),
      omega (arith, ins, ap to_indicate todo, length-append (indications es) (i ∷ [])),
      free,
    )
    Step-Counts es (main_hears awaits gets) counts = counts
    Step-Counts es (main_answers ready puts) counts = counts

    Runs-Counts :
        (d : Driver) (n : Node) {es : List Event} {s : System sync}
        → Runs sync env (init sync d n) es s
        → Counts es s
    unfolding init
    Runs-Counts d n unmoved = (refl, omega arith, refl)
    Runs-Counts d n (moved {es = es} before step) = Step-Counts es step (Runs-Counts d n before)

    length-answers : (is : List ApplicationServiceInd) → length (answers is) ≡ length is
    length-answers [] = refl
    length-answers (i ∷ is) = ap suc (length-answers is)

    -- Whatever the line brings and in whatever order the tasks run, the device queues at most as
    -- many frames for the bus as it has indicated reads, and indicates at most as many as it has
    -- heard telegrams.
    pub no_more_than_heard :
        (d : Driver) (n : Node) {es : List Event} {s : System sync}
        → Runs sync env (init sync d n) es s
        → (length (frames_queued es) ≤ length (indications es))
          × (length (indications es) ≤ length (frames_heard es))
    no_more_than_heard d n {es = es} {s = s} runs =
        let (outs, ins, _) = Runs-Counts d n runs in
        let (_, _, asked) = Runs-InOrder sync env d n runs in
        let taken = responses es in
        let waits = sync.held s.service_channel_tx in
        let given = to_list s.answering in
        let asks = answers (sync.held s.service_channel_rx) in
        (
          omega (
            arith,
            outs,
            ap length asked,
            length-answers (indications es),
            length-append (taken ++ waits ++ given) asks,
            length-append (taken ++ waits) given,
            length-append taken waits,
          ),
          omega (arith, ins),
        )

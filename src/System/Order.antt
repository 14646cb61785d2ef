-- ===== src/System/Order.antt =====
-- In what order frames, indications and responses go between the tasks.
use embassy_knx.Prelude.{◌≡◌, refl, sym, ap, Option, none, some, List, [], ◌∷◌, ◌++◌}
use mathlib.Core.List.{append_assoc}
use embassy_knx.Frame.Dispatch.{Frame}
use embassy_knx.Frame.Writer.{Platform}
use embassy_knx.Sync.{Sync}
use embassy_knx.Node.{Node, ApplicationServiceInd}
use embassy_knx.Driver.Uart.{Driver}
use embassy_knx.Driver.Run.Effects.{frame_waits-confirmed}
use embassy_knx.Application.{ApplicationServiceRes, res_group_value_read}
use embassy_knx.Application.Response.{answer}
use embassy_knx.System.{
  System, Event, line_round, frame_taken, telegram_heard, frame_queued, response_taken, indicated,
  init, Step, Runs, channel_size, service_size, driver_reads, driver_passes, driver_takes,
  driver_sends, app_hears, app_ticks, clock, app_responds, app_resets, app_enqueues, app_waits,
  app_indicates, main_hears, main_answers, unmoved, moved,
}

-- The frames that the rounds of the driver gave, and those that the application layer got.
abbrev pub frames_received : List Event → List Frame
frames_received [] = []
frames_received (line_round fs ∷ es) = frames_received es ++ fs
frames_received (_ ∷ es) = frames_received es

abbrev pub frames_heard : List Event → List Frame
frames_heard [] = []
frames_heard (telegram_heard f ∷ es) = frames_heard es ++ f ∷ []
frames_heard (_ ∷ es) = frames_heard es

-- The frames that the layers queued, and those that the driver took to transmit them.
abbrev pub frames_queued : List Event → List Frame
frames_queued [] = []
frames_queued (frame_queued f ∷ es) = frames_queued es ++ f ∷ []
frames_queued (_ ∷ es) = frames_queued es

abbrev pub frames_taken : List Event → List Frame
frames_taken [] = []
frames_taken (frame_taken f ∷ es) = frames_taken es ++ f ∷ []
frames_taken (_ ∷ es) = frames_taken es

-- The indications of the application layer, and the responses that it took.
abbrev pub indications : List Event → List ApplicationServiceInd
indications [] = []
indications (indicated i ∷ es) = indications es ++ i ∷ []
indications (_ ∷ es) = indications es

abbrev pub responses : List Event → List ApplicationServiceRes
responses [] = []
responses (response_taken r ∷ es) = responses es ++ r ∷ []
responses (_ ∷ es) = responses es

abbrev pub to_list {ℓ} : {A : Type ℓ} → Option A → List A
to_list none = []
to_list (some a) = a ∷ []

-- What `main` answers to indications.
abbrev pub answers : List ApplicationServiceInd → List ApplicationServiceRes
answers [] = []
answers (i ∷ is) = res_group_value_read (answer i) ∷ answers is

answers-append :
    (is js : List ApplicationServiceInd) → answers (is ++ js) ≡ answers is ++ answers js
answers-append [] js = refl
answers-append (i ∷ is) js = ap (◌∷◌ (res_group_value_read (answer i))) (answers-append is js)

module _ {ℓ} {A : Type ℓ} where
  -- New ones join at the end.
  joins :
      (front last : List A) {all last' : List A} (new : List A)
      → all ≡ front ++ last
      → last' ≡ last ++ new
      → all ++ new ≡ front ++ last'
  joins front last new same more = rw (same, more, append_assoc front last new)

  -- The first of the last part joins the part before.
  moves_up :
      (front mid : List A) {all last mid' xs : List A} (x : A)
      → all ≡ front ++ mid ++ last
      → last ≡ x ∷ xs
      → mid' ≡ mid ++ x ∷ []
      → all ≡ front ++ mid' ++ xs
  moves_up front mid {xs = xs} x same first more = rw (same, first, more) (simp append_assoc)

  -- The first of the part in the middle is done.
  leaves :
      (front last : List A) {all mid xs : List A} (x : A)
      → all ≡ front ++ mid ++ last
      → mid ≡ x ∷ xs
      → all ≡ front ++ x ∷ [] ++ xs ++ last
  leaves front last {xs = xs} x same first = rw (same, first) (simp append_assoc)

module _ (sync : Sync) where
  -- Where the frames from the line, the frames for the line and the answers to the indications are,
  -- oldest first.
  abbrev pub InOrder : List Event → System sync → Type 0
  InOrder es s =
      (frames_received es ≡ frames_heard es ++ sync.held s.frame_channel_tx ++ s.driver.passed)
      × (frames_queued es ≡ frames_taken es ++ sync.held s.frame_channel_rx)
      × (answers (indications es)
          ≡ responses es
            ++ sync.held s.service_channel_tx
            ++ to_list s.answering
            ++ answers (sync.held s.service_channel_rx))

  init-InOrder : (d : Driver) (n : Node) → InOrder [] (init sync d n)
  unfolding init
  init-InOrder d n = (
    rw (sync.new_held {A = Frame} channel_size),
    sym (sync.new_held {A = Frame} channel_size),
    rw (
      sync.new_held {A = ApplicationServiceInd} service_size,
      sync.new_held {A = ApplicationServiceRes} service_size,
    ),
  )

  module _ (env : Platform) where
    Step-InOrder :
        {e : Event} (es : List Event) {s t : System sync}
        → Step sync env s e t
        → InOrder es s
        → InOrder (e ∷ es) t
    Step-InOrder es {s = s} (driver_reads {d = d} empty listens runs) (ins, outs, asked) = (
      joins (frames_heard es ++ sync.held s.frame_channel_tx) s.driver.passed d.passed ins
          (rw empty),
      outs,
      asked,
    )
    Step-InOrder es {s = s} (driver_passes {f = f} ready puts) (ins, outs, asked) = (
      moves_up (frames_heard es) (sync.held s.frame_channel_tx) f ins ready (sync.send_held puts),
      outs,
      asked,
    )
    Step-InOrder es (driver_takes empty listens gets) (ins, outs, asked) =
        (ins, rw (outs, sync.receive_held gets) (simp append_assoc), asked)
    Step-InOrder es {s = s} (driver_sends {f = f} busy runs) (ins, outs, asked) =
        let (status, confirms, keeps) = frame_waits-confirmed env f s.driver runs in
        (rw keeps ins, outs, asked)
    Step-InOrder es {s = s} (app_hears {f = f} idle gets runs) (ins, outs, asked) =
        (leaves (frames_heard es) s.driver.passed f ins (sync.receive_held gets), outs, asked)
    Step-InOrder es (app_ticks idle runs) order = order
    Step-InOrder es (clock now) order = order
    Step-InOrder es (app_responds idle quiet gets runs) (ins, outs, asked) =
        (ins, outs, rw (asked, sync.receive_held gets) (simp append_assoc))
    Step-InOrder es (app_resets todo) order = order
    Step-InOrder es (app_enqueues {f = f} todo puts) (ins, outs, asked) =
        (ins, joins (frames_taken es) _ (f ∷ []) outs (sync.send_held puts), asked)
    Step-InOrder es (app_waits todo gets) order = order
    Step-InOrder es {s = s} (app_indicates {i = i} todo puts) (ins, outs, asked) =
        let held_before = sync.held s.service_channel_rx in
        (
          ins,
          outs,
          rw
              (
                answers-append (indications es) (i ∷ []),
                asked,
                sync.send_held puts,
                answers-append held_before (i ∷ []),
              )
              (simp append_assoc),
        )
    Step-InOrder es (main_hears awaits gets) (ins, outs, asked) =
        (ins, outs, rw (asked, awaits, sync.receive_held gets) (simp append_assoc))
    Step-InOrder es (main_answers ready puts) (ins, outs, asked) =
        (ins, outs, rw (asked, ready, sync.send_held puts) (simp append_assoc))

    -- In every state that the tasks reach from the start, whatever the line brings and in whatever
    -- order they run, nothing between them is lost, doubled or reordered. The frames that the
    -- driver has received are those that the application layer has heard, those in the channel, and
    -- those that the driver has yet to put there, in this order. The frames that the layers have
    -- queued are those that the driver has taken and those in the channel. The answers to all
    -- indications are the responses that the layers have taken, those in the channel, the one that
    -- `main` is giving, and the answers to the indications in the other channel.
    pub Runs-InOrder :
        (d : Driver) (n : Node) {es : List Event} {s : System sync}
        → Runs sync env (init sync d n) es s
        → InOrder es s
    Runs-InOrder d n unmoved = init-InOrder d n
    Runs-InOrder d n (moved {es = es} before step) = Step-InOrder es step (Runs-InOrder d n before)

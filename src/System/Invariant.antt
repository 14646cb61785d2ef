-- ===== src/System/Invariant.antt =====
-- What holds in every state that the three tasks reach.
use embassy_knx.Prelude.{◌≡◌, refl, sym, ◌∙◌, ap, false, some, List, [], ◌∷◌, ◌++◌}
use embassy_knx.Frame.Dispatch.{Frame}
use embassy_knx.Frame.Writer.{Platform}
use embassy_knx.Sync.{Sync}
use embassy_knx.Node.{Node}
use embassy_knx.Driver.Uart.{Driver, ConStatus}
use embassy_knx.Driver.Run.Effects.{line_read-confirmed, frame_waits-confirmed}
use embassy_knx.Transport.Layer.{frame_arrives, tick}
use embassy_knx.Transport.Actions.{new}
use embassy_knx.Application.Effects.{from_bus-IsHeard, response-IsAnswered}
use embassy_knx.System.{
  System, Event, init, signal_all, Step, Runs, channel_size, driver_reads, driver_passes,
  driver_takes, driver_sends, app_hears, app_ticks, clock, app_responds, app_resets, app_enqueues,
  app_waits, app_indicates, main_hears, main_answers, unmoved, moved,
}
use embassy_knx.System.Protocol.{
  Protocol, at_rest, move, hears, responds, resets, enqueues, waits, indicates, takes, sends,
}

module _ (sync : Sync) where
  -- The transmission is at one of its stages; the cell of the connection is free, and the
  -- connection as `Connection::new` made it; no confirmation of the driver is left unsignalled.
  abbrev pub Inv : System sync → Type 0
  Inv s =
      Protocol s.node.trace s.sending (sync.held s.frame_channel_rx) (sync.value s.con_signal)
      × (s.node.borrowed ≡ false)
      × (s.node.connection ≡ new)
      × (s.driver.confirmed ≡ [])
      × (sync.capacity s.frame_channel_rx ≡ channel_size)

  -- One confirmation of the driver is what the signal then holds.
  one_signal :
      {old now : List ConStatus} {status : ConStatus} (c : sync.Signal ConStatus)
      → old ≡ []
      → now ≡ old ++ status ∷ []
      → sync.value (signal_all sync now c) ≡ some status
  unfolding signal_all
  one_signal {status = status} c none_left one_more =
      rw (one_more, none_left) (sync.signal_value status c)

  init-Inv : (d : Driver) (n : Node) → Inv (init sync d n)
  unfolding init
  init-Inv d n = (
    rw (sync.new_held {A = Frame} channel_size, sync.new_value {A = ConStatus}) at_rest,
    refl,
    refl,
    refl,
    sync.new_capacity channel_size,
  )

  module _ (env : Platform) where
    Step-Inv : {e : Event} {s t : System sync} → Step sync env s e t → Inv s → Inv t
    Step-Inv {s = s} (driver_reads empty listens runs) (stage, free, unopened, told, bound) = (
      stage,
      free,
      unopened,
      ap (λ run. run.1.confirmed) (sym runs) ∙ line_read-confirmed env s.driver ∙ told,
      bound,
    )
    Step-Inv (driver_passes ready puts) inv = inv
    Step-Inv (driver_takes empty listens gets) (stage, free, unopened, told, bound) =
        let queue = sync.receive_held gets in
        (
          takes (move stage refl listens queue refl),
          free,
          unopened,
          told,
          sync.receive_capacity gets ∙ bound,
        )
    Step-Inv {s = s} (driver_sends {f = f} busy runs) (stage, free, unopened, told, bound) =
        let (status, confirms, keeps) = frame_waits-confirmed env f s.driver runs in
        (
          move (sends (move stage refl busy refl refl)) refl refl refl
              (sym (one_signal s.con_signal told confirms)),
          free,
          unopened,
          refl,
          bound,
        )
    Step-Inv {s = s} (app_hears {f = f} idle gets runs) (stage, free, unopened, told, bound) =
        let (does, gives_back, keeps) = from_bus-IsHeard env (frame_arrives f) s.node idle free in
        let ends = ap (λ run. run.1) runs in
        (
          hears (move stage idle refl refl refl) (rw (← ends) does),
          rw (← ends) (gives_back ∙ free),
          rw (← ends) (keeps ∙ unopened),
          told,
          bound,
        )
    Step-Inv {s = s} (app_ticks idle runs) (stage, free, unopened, told, bound) =
        let (does, gives_back, keeps) = from_bus-IsHeard env tick s.node idle free in
        let ends = ap (λ run. run.1) runs in
        (
          hears (move stage idle refl refl refl) (rw (← ends) does),
          rw (← ends) (gives_back ∙ free),
          rw (← ends) (keeps ∙ unopened),
          told,
          bound,
        )
    Step-Inv (clock now) inv = inv
    Step-Inv {s = s} (app_responds {res = res} idle quiet gets runs)
          (stage, free, unopened, told, bound) =
        let (does, gives_back, keeps) = response-IsAnswered env res s.node idle runs in
        (
          responds (move stage idle refl refl refl) does,
          gives_back ∙ free,
          keeps ∙ unopened,
          told,
          bound,
        )
    Step-Inv {s = s} (app_resets todo) (stage, free, unopened, told, bound) = (
      move (resets (move stage todo refl refl refl)) refl refl refl
          (sym (sync.reset_value s.con_signal)),
      free,
      unopened,
      told,
      bound,
    )
    Step-Inv (app_enqueues todo puts) (stage, free, unopened, told, bound) =
        let queue = sync.send_held puts in
        (
          move (enqueues (move stage todo refl refl refl)) refl refl (sym queue) refl,
          free,
          unopened,
          told,
          sync.send_capacity puts ∙ bound,
        )
    Step-Inv (app_waits todo gets) (stage, free, unopened, told, bound) =
        let (had, left) = sync.take_value gets in
        (
          move (waits (move stage todo refl refl had)) refl refl refl (sym left),
          free,
          unopened,
          told,
          bound,
        )
    Step-Inv (app_indicates todo puts) (stage, free, unopened, told, bound) =
        (indicates (move stage todo refl refl refl), free, unopened, told, bound)
    Step-Inv (main_hears awaits gets) inv = inv
    Step-Inv (main_answers ready puts) inv = inv

    -- In every state that is reached from the start, whatever the line brings and in whatever order
    -- the tasks run.
    pub Runs-Inv :
        (d : Driver) (n : Node) {es : List Event} {s : System sync}
        → Runs sync env (init sync d n) es s
        → Inv s
    Runs-Inv d n unmoved = init-Inv d n
    Runs-Inv d n (moved before step) = Step-Inv step (Runs-Inv d n before)

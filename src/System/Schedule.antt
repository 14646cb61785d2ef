-- ===== src/System/Schedule.antt =====
-- Runs of the three tasks by evaluation: each turn makes the step of one task if it can be made.
use embassy_knx.Prelude.{◌≡◌, refl, ok, none, some, List, [], ◌∷◌}
use embassy_knx.Frame.Writer.{Platform}
use embassy_knx.Sync.{Sync}
use embassy_knx.Node.{con_reset, enqueue, con_wait, indicate}
use embassy_knx.Driver.Run
use embassy_knx.Driver.Run.{line_read, frame_waits}
use embassy_knx.Transport.Layer.{frame_arrives}
use embassy_knx.Application
use embassy_knx.Application.{from_bus, response}
use embassy_knx.System.{
  System, Event, Runs, Step, unmoved, moved, driver_reads, driver_passes, driver_takes,
  driver_sends, app_hears, app_responds, app_resets, app_enqueues, app_waits, app_indicates,
  main_hears, main_answers,
}

-- A value with what it is.
abbrev Is : {A : Type 0} → A → Type 0
Is {A} a = (b : A) × (a ≡ b)

pub data Turn : Type 0 where
  driver_on_line driver_hands_over driver_fetches driver_transmits : Turn
  layers_listen layers_respond layers_go_on : Turn
  main_listens main_goes_on : Turn

module _ (sync : Sync) (env : Platform) where
  -- A state with how it is reached.
  pub record Reached (first : System sync) : Type 1 where
    pub log : List Event
    pub last : System sync
    pub reach : Runs sync env first log last

  module _ {first : System sync} where
    go :
        (r : Reached first) {e : Event} {t : System sync} → Step sync env r.last e t → Reached first
    go r step = record { log = _; last = _; reach = moved r.reach step }

    on_line :
        (r : Reached first)
        → Is r.last.driver.passed
        → Is r.last.sending
        → Is (Run.run_step env line_read r.last.driver)
        → Reached first
    on_line r ([], p) (none, q) ((ok tt, d), runs) = go r (driver_reads p q runs)
    on_line r _ _ _ = r

    hands_over : (r : Reached first) → Is r.last.driver.passed → Reached first
    hands_over r ([], _) = r
    hands_over r (f ∷ fs, p) = puts (sync.try_send f r.last.frame_channel_tx, refl)
      where
        puts : Is (sync.try_send f r.last.frame_channel_tx) → Reached first
        puts (none, _) = r
        puts (some c, q) = go r (driver_passes p q)

    fetches :
        (r : Reached first)
        → Is r.last.driver.passed
        → Is r.last.sending
        → Is (sync.try_receive r.last.frame_channel_rx)
        → Reached first
    fetches r ([], p) (none, q) (some (f, c), gets) = go r (driver_takes p q gets)
    fetches r _ _ _ = r

    transmits : (r : Reached first) → Is r.last.sending → Reached first
    transmits r (none, _) = r
    transmits r (some f, p) = sends (Run.run_step env (frame_waits f) r.last.driver, refl)
      where
        sends : Is (Run.run_step env (frame_waits f) r.last.driver) → Reached first
        sends ((ok tt, d), q) = go r (driver_sends p q)
        sends _ = r

    listens :
        (r : Reached first)
        → Is r.last.node.trace
        → Is (sync.try_receive r.last.frame_channel_tx)
        → Reached first
    listens r ([], p) (some (f, c), gets) =
        hears (Application.run_step env (from_bus (frame_arrives f)) r.last.node, refl)
      where
        hears :
            Is (Application.run_step env (from_bus (frame_arrives f)) r.last.node) → Reached first
        hears ((ok tt, n), q) = go r (app_hears p gets q)
        hears _ = r
    listens r _ _ = r

    responds :
        (r : Reached first)
        → Is r.last.node.trace
        → Is (sync.try_receive r.last.frame_channel_tx)
        → Is (sync.try_receive r.last.service_channel_tx)
        → Reached first
    responds r ([], p) (none, empty) (some (res, c), gets) =
        answers (Application.run_step env (response res) r.last.node, refl)
      where
        answers : Is (Application.run_step env (response res) r.last.node) → Reached first
        answers ((ok tt, n), q) = go r (app_responds p empty gets q)
        answers _ = r
    responds r _ _ _ = r

    goes_on : (r : Reached first) → Is r.last.node.trace → Reached first
    goes_on r ([], _) = r
    goes_on r (con_reset ∷ es, p) = go r (app_resets p)
    goes_on r (enqueue f ∷ es, p) = puts (sync.try_send f r.last.frame_channel_rx, refl)
      where
        puts : Is (sync.try_send f r.last.frame_channel_rx) → Reached first
        puts (none, _) = r
        puts (some c, q) = go r (app_enqueues p q)
    goes_on r (con_wait ∷ es, p) = gets (sync.try_take r.last.con_signal, refl)
      where
        gets : Is (sync.try_take r.last.con_signal) → Reached first
        gets (none, _) = r
        gets (some (status, c), q) = go r (app_waits p q)
    goes_on r (indicate i ∷ es, p) = puts (sync.try_send i r.last.service_channel_rx, refl)
      where
        puts : Is (sync.try_send i r.last.service_channel_rx) → Reached first
        puts (none, _) = r
        puts (some c, q) = go r (app_indicates p q)

    main_gets :
        (r : Reached first)
        → Is r.last.answering
        → Is (sync.try_receive r.last.service_channel_rx)
        → Reached first
    main_gets r (none, p) (some (i, c), gets) = go r (main_hears p gets)
    main_gets r _ _ = r

    main_gives : (r : Reached first) → Is r.last.answering → Reached first
    main_gives r (none, _) = r
    main_gives r (some res, p) = puts (sync.try_send res r.last.service_channel_tx, refl)
      where
        puts : Is (sync.try_send res r.last.service_channel_tx) → Reached first
        puts (none, _) = r
        puts (some c, q) = go r (main_answers p q)

    turn : Reached first → Turn → Reached first
    unfolding on_line hands_over fetches transmits listens responds goes_on main_gets main_gives go
    turn r driver_on_line = on_line r (_, refl) (_, refl) (_, refl)
    turn r driver_hands_over = hands_over r (_, refl)
    turn r driver_fetches = fetches r (_, refl) (_, refl) (_, refl)
    turn r driver_transmits = transmits r (_, refl)
    turn r layers_listen = listens r (_, refl) (_, refl)
    turn r layers_respond = responds r (_, refl) (_, refl) (_, refl)
    turn r layers_go_on = goes_on r (_, refl)
    turn r main_listens = main_gets r (_, refl) (_, refl)
    turn r main_goes_on = main_gives r (_, refl)

    -- The tasks in turn, the first of the list first.
    turns : Reached first → List Turn → Reached first
    unfolding turn
    turns r [] = r
    turns r (t ∷ ts) = turns (turn r t) ts

  unfoldable pub run : (first : System sync) → List Turn → Reached first
  unfolding turns
  run first = turns (record { log = []; last = first; reach = unmoved })

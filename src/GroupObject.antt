-- ===== src/GroupObject.antt =====
-- The group objects (src/group_object.rs).
pub mod Waiting
use embassy_knx.Prelude.{ℕ, ◌≡◌, get_elem?, set, some, List, [], ◌∷◌}
use embassy_knx.Sync.{Sync}

pub data GroupObjectState : Type 0 where
  read_request write_request transmitting ok update error : GroupObjectState

-- Where a call of `read_value` stands: none is running, it sends the signal to the channel, or it
-- waits for the signal. A call holds `&'static mut self`, so an object has one at a time.
pub data At : Type 0 where
  idle sending waiting : At

-- The sender of an object is the one of `GROUP_OBJECT_CHANNEL`, and no field here.
pub record GroupObject (sync : Sync) : Type 0 where
  pub state : GroupObjectState
  pub signal : sync.Signal GroupObjectState
  pub value : ℕ
  pub reading : At

abbrev pub channel_size : ℕ
channel_size = 4

-- `GROUP_OBJECTS` and `GROUP_OBJECT_CHANNEL`. The channel holds references to signals: an object is
-- known by its index.
pub record GroupObjects (sync : Sync) : Type 0 where
  pub objects : List (GroupObject sync)
  pub channel : sync.Channel ℕ

module _ (sync : Sync) where
  abbrev object : ℕ → GroupObject sync
  object value = record { state = ok; signal = sync.new_signal; value = value; reading = idle }

  unfoldable pub init : GroupObjects sync
  init = record { objects = object 0 ∷ object 1 ∷ []; channel = sync.new_channel channel_size }

  -- The parts of `read_value` of the object `i` between its waits.
  pub data Step (g : GroupObjects sync) (i : ℕ) : GroupObjects sync → Type 0 where
    begins :
        {o : GroupObject sync}
        → get_elem? g.objects i ≡ some o
        → o.reading ≡ idle
        → Step g i (record g {
          objects = set g.objects i (record o { state = transmitting; reading = sending });
        })
    sends :
        {o : GroupObject sync} {c : sync.Channel ℕ}
        → get_elem? g.objects i ≡ some o
        → o.reading ≡ sending
        → sync.try_send i g.channel ≡ some c
        → Step g i
            (record g { objects = set g.objects i (record o { reading = waiting }); channel = c })
    wakes :
        {o : GroupObject sync} {state : GroupObjectState} {s : sync.Signal GroupObjectState}
        → get_elem? g.objects i ≡ some o
        → o.reading ≡ waiting
        → sync.try_take o.signal ≡ some (state, s)
        → Step g i (record g {
          objects = set g.objects i (record o { state = state; signal = s; reading = idle });
        })

  -- What calls of `read_value` in any order reach, by the objects whose calls went on, newest
  -- first.
  pub data Runs : List ℕ → GroupObjects sync → Type 0 where
    unmoved : Runs [] init
    moved :
        {is : List ℕ} {i : ℕ} {g h : GroupObjects sync} → Runs is g → Step g i h → Runs (i ∷ is) h

-- ===== src/Examples/Objects.antt =====
-- Reads of group objects, with channels that are lists (src/group_object.rs).
use embassy_knx.Prelude.{All, refl, [], ◌∷◌}
use embassy_knx.GroupObject.{
  transmitting, ok, idle, waiting, init, Runs, unmoved, moved, begins, sends,
}
use embassy_knx.GroupObject.Waiting.{IsPending, reads_never_end}
use embassy_knx.Examples.Channels.{lists}

-- A read of the second object has sent its signal.
one_read : Runs lists (1 ∷ 1 ∷ []) (record {
  objects =
      record { state = ok; signal = lists.new_signal; value = 0; reading = idle }
      ∷ record { state = transmitting; signal = lists.new_signal; value = 1; reading = waiting }
      ∷ [];
  channel = (4, 1 ∷ []);
})
unfolding init
one_read = moved (moved unmoved (begins refl refl)) (sends refl refl refl)

reads_never_end_example : All (IsPending lists) (
    record { state = ok; signal = lists.new_signal; value = 0; reading = idle }
    ∷ record { state = transmitting; signal = lists.new_signal; value = 1; reading = waiting }
    ∷ [])
reads_never_end_example = reads_never_end lists one_read

-- ===== src/Sync.antt =====
-- What the tasks use of the crate embassy_sync: channels of a fixed capacity and signals. The
-- crate is not part of the program; the laws are its documented behaviour.
use embassy_knx.Prelude.{ℕ, ◌≤◌, ◌<◌, ◌≡◌, length, is_some}
use embassy_knx.Prelude.{true, Option, none, some, List, [], ◌∷◌, ◌++◌}

-- `held` is what waits in a channel, oldest first, and `value` what a signal holds. A `send` or a
-- `receive` that waits is over once its `try_` form succeeds.
pub record Sync : Type 1 where
  pub Channel : Type 0 → Type 0
  pub new_channel : {A : Type 0} → ℕ → Channel A
  pub try_send : {A : Type 0} → A → Channel A → Option (Channel A)
  pub try_receive : {A : Type 0} → Channel A → Option (A × Channel A)
  pub held : {A : Type 0} → Channel A → List A
  pub capacity : {A : Type 0} → Channel A → ℕ
  pub new_held : {A : Type 0} (size : ℕ) → held (new_channel {A = A} size) ≡ []
  pub new_capacity : {A : Type 0} (size : ℕ) → capacity (new_channel {A = A} size) ≡ size
  pub send_held :
      {A : Type 0} {x : A} {c c' : Channel A} → try_send x c ≡ some c' → held c' ≡ held c ++ x ∷ []
  pub send_capacity :
      {A : Type 0} {x : A} {c c' : Channel A} → try_send x c ≡ some c' → capacity c' ≡ capacity c
  pub send_room :
      {A : Type 0} (x : A) (c : Channel A)
      → length (held c) < capacity c
      → is_some (try_send x c) ≡ true
  pub send_full :
      {A : Type 0} (x : A) (c : Channel A) → capacity c ≤ length (held c) → try_send x c ≡ none
  pub receive_held :
      {A : Type 0} {x : A} {c c' : Channel A} → try_receive c ≡ some (x, c') → held c ≡ x ∷ held c'
  pub receive_capacity :
      {A : Type 0} {x : A} {c c' : Channel A}
      → try_receive c ≡ some (x, c')
      → capacity c' ≡ capacity c
  pub receive_ready :
      {A : Type 0} {x : A} {xs : List A} (c : Channel A)
      → held c ≡ x ∷ xs
      → is_some (try_receive c) ≡ true
  pub Signal : Type 0 → Type 0
  pub new_signal : {A : Type 0} → Signal A
  pub signal : {A : Type 0} → A → Signal A → Signal A
  pub reset : {A : Type 0} → Signal A → Signal A
  pub try_take : {A : Type 0} → Signal A → Option (A × Signal A)
  pub value : {A : Type 0} → Signal A → Option A
  pub new_value : {A : Type 0} → value (new_signal {A = A}) ≡ none
  pub signal_value : {A : Type 0} (x : A) (s : Signal A) → value (signal x s) ≡ some x
  pub reset_value : {A : Type 0} (s : Signal A) → value (reset s) ≡ none
  pub take_value :
      {A : Type 0} {x : A} {s s' : Signal A}
      → try_take s ≡ some (x, s')
      → (value s ≡ some x) × (value s' ≡ none)
  pub take_ready :
      {A : Type 0} {x : A} (s : Signal A) → value s ≡ some x → is_some (try_take s) ≡ true

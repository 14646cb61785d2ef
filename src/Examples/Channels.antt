-- ===== src/Examples/Channels.antt =====
-- Channels and signals that are lists and options, which keep the laws of the model's.
use embassy_knx.Prelude.{ℕ, ◌≤◌, ◌<◌, ◌≡◌, refl, arith, ltb, length, is_some, if◌then◌else◌}
use embassy_knx.Prelude.{true, Option, none, some, List, [], ◌∷◌, ◌++◌}
use embassy_knx.Sync.{Sync}

-- A channel is its capacity with what waits in it.
abbrev pub Lists : Type 0 → Type 0
Lists A = ℕ × List A

abbrev pub put : {A : Type 0} → A → Lists A → Option (Lists A)
put x (size, xs) = if ltb (length xs) size then some (size, xs ++ x ∷ []) else none

abbrev pub get : {A : Type 0} → Lists A → Option (A × Lists A)
get (size, []) = none
get (size, x ∷ xs) = some (x, (size, xs))

abbrev pub take_value : {A : Type 0} → Option A → Option (A × Option A)
take_value none = none
take_value (some x) = some (x, none)

module _ {A : Type 0} where
  pub put_held : (x : A) (c : Lists A) {c' : Lists A} → put x c ≡ some c' → c'.1 ≡ c.1 ++ x ∷ []
  put_held x (size, xs) puts = ground arith

  pub put_capacity : (x : A) (c : Lists A) {c' : Lists A} → put x c ≡ some c' → c'.0 ≡ c.0
  put_capacity x (size, xs) puts = ground arith

  pub put_room : (x : A) (c : Lists A) → length c.1 < c.0 → is_some (put x c) ≡ true
  put_room x (size, xs) room = ground arith

  pub put_full : (x : A) (c : Lists A) → c.0 ≤ length c.1 → put x c ≡ none
  put_full x (size, xs) full = ground arith

  pub get_held : (c : Lists A) {x : A} {c' : Lists A} → get c ≡ some (x, c') → c.1 ≡ x ∷ c'.1
  get_held (size, []) gets = cc
  get_held (size, y ∷ ys) gets = cc

  pub get_capacity : (c : Lists A) {x : A} {c' : Lists A} → get c ≡ some (x, c') → c'.0 ≡ c.0
  get_capacity (size, []) gets = cc
  get_capacity (size, y ∷ ys) gets = cc

  pub get_ready : {x : A} {xs : List A} (c : Lists A) → c.1 ≡ x ∷ xs → is_some (get c) ≡ true
  get_ready (size, []) first = cc
  get_ready (size, y ∷ ys) first = refl

  pub taken :
      (s : Option A) {x : A} {s' : Option A}
      → take_value s ≡ some (x, s')
      → (s ≡ some x) × (s' ≡ none)
  taken none takes = cc
  taken (some y) takes = (cc, cc)

  pub take_ready : {x : A} (s : Option A) → s ≡ some x → is_some (take_value s) ≡ true
  take_ready none holds = cc
  take_ready (some y) holds = refl

abbrev pub lists : Sync
lists = record {
  Channel = Lists;
  new_channel = λ size. (size, []);
  try_send = put;
  try_receive = get;
  held = λ c. c.1;
  capacity = λ c. c.0;
  new_held = λ size. refl;
  new_capacity = λ size. refl;
  send_held = λ {A} {x} {c} puts. put_held x c puts;
  send_capacity = λ {A} {x} {c} puts. put_capacity x c puts;
  send_room = put_room;
  send_full = put_full;
  receive_held = λ {A} {x} {c} gets. get_held c gets;
  receive_capacity = λ {A} {x} {c} gets. get_capacity c gets;
  receive_ready = get_ready;
  Signal = Option;
  new_signal = none;
  signal = λ x s. some x;
  reset = λ s. none;
  try_take = take_value;
  value = λ s. s;
  new_value = refl;
  signal_value = λ x s. refl;
  reset_value = λ s. refl;
  take_value = λ {A} {x} {s} takes. taken s takes;
  take_ready = take_ready;
}

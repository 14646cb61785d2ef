-- ===== src/System/Moves.antt =====
-- When the calls of a channel or a signal are over at once.
use embassy_knx.Prelude.{
  ℕ, ◌<◌, ◌≤◌, ◌≡◌, refl, ◌∙◌, ap, arith, inl, inr, is_some, true, Option, none, some, List, [],
  ◌∷◌, ◌++◌, length, Option-cases,
}
use native.Mathlib.Decide.{dec_lt}
use embassy_knx.Sync.{Sync}

pub given : {A : Type 0} (o : Option A) → is_some o ≡ true → (a : A) × (o ≡ some a)
given none e = absurd cc
given (some a) e = (a, refl)

module _ (sync : Sync) where
  -- A value that a signal holds is what a wait for it gives.
  pub signalled :
      {A : Type 0} {x : A} (c : sync.Signal A)
      → sync.value c ≡ some x
      → (c' : sync.Signal A) × (sync.try_take c ≡ some (x, c'))
  signalled c holds =
      let ((y, c'), takes) = given (sync.try_take c) (sync.take_ready c holds) in
      (c', cc (takes, holds, (sync.take_value takes).0))

  -- The oldest value of a channel is what a receive gives, and the others stay.
  pub received :
      {A : Type 0} {x : A} {xs : List A} (c : sync.Channel A)
      → sync.held c ≡ x ∷ xs
      → (c' : sync.Channel A) × (sync.try_receive c ≡ some (x, c'))
        × (sync.held c' ≡ xs)
        × (sync.capacity c' ≡ sync.capacity c)
  received c holds =
      let ((y, c'), gets) = given (sync.try_receive c) (sync.receive_ready c holds) in
      (
        c',
        cc (gets, holds, sync.receive_held gets),
        cc (holds, sync.receive_held gets),
        sync.receive_capacity gets,
      )

  -- An empty channel gives nothing.
  pub nothing_waits :
      {A : Type 0} (c : sync.Channel A) → sync.held c ≡ [] → sync.try_receive c ≡ none
  nothing_waits c empty = elim (Option-cases (sync.try_receive c)) [
    | inl waits ↦ waits
    | inr ((x, c'), gets) ↦ absurd (cc (sync.receive_held gets, empty))
  ]

  -- Nothing waits in the channel, and it has room.
  abbrev pub IsFree : {A : Type 0} → sync.Channel A → Type 0
  IsFree c = (sync.held c ≡ []) × (0 < sync.capacity c)

  pub new_channel-IsFree :
      {A : Type 0} (size : ℕ) → 0 < size → IsFree (sync.new_channel {A = A} size)
  new_channel-IsFree size room = (sync.new_held size, rw (sync.new_capacity size) room)

  -- A value goes through a free channel, which is free again.
  pub passed_through :
      {A : Type 0} (x : A) (c : sync.Channel A)
      → IsFree c
      → (c' : sync.Channel A) × (c'' : sync.Channel A) × (sync.try_send x c ≡ some c')
        × (sync.try_receive c' ≡ some (x, c''))
        × IsFree c''
  passed_through x c (empty, room) =
      let (c', puts) = given (sync.try_send x c) (sync.send_room x c (rw empty room)) in
      let holds = sync.send_held puts ∙ ap (λ xs. xs ++ x ∷ []) empty in
      let (c'', gets, left, same) = received c' holds in
      (c', c'', puts, gets, (left, omega (arith, room, same, sync.send_capacity puts)))

  -- A channel that refuses a value is full.
  pub refused :
      {A : Type 0} (x : A) (c : sync.Channel A)
      → sync.try_send x c ≡ none
      → sync.capacity c ≤ length (sync.held c)
  refused x c no_room = elim (dec_lt (length (sync.held c)) (sync.capacity c)) [
    | yes room ↦ absurd (cc (sync.send_room x c room, ap is_some no_room))
    | no full ↦ omega (arith, full)
  ]

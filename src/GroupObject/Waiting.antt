-- ===== src/GroupObject/Waiting.antt =====
-- What becomes of reads of group objects (src/group_object.rs).
use embassy_knx.Prelude.{ℕ, ◌≡◌, ◌⊎◌, inl, inr, refl, All, All-get, All-set, none, List}
use embassy_knx.Sync.{Sync}
use embassy_knx.GroupObject.{
  GroupObjectState, transmitting, ok, idle, sending, waiting, GroupObject, GroupObjects, init, Step,
  begins, sends, wakes, Runs, unmoved, moved,
}

module _ (sync : Sync) where
  -- The object is as it was made, or a read of it is under way; its signal holds nothing.
  abbrev pub IsPending : GroupObject sync → Type 0
  IsPending o =
      (sync.value o.signal ≡ none)
      × (((o.state ≡ ok) × (o.reading ≡ idle))
          ⊎ ((o.state ≡ transmitting) × (o.reading ≡ sending))
          ⊎ ((o.state ≡ transmitting) × (o.reading ≡ waiting)))

  Step-IsPending :
      {i : ℕ} {g h : GroupObjects sync}
      → Step sync g i h
      → All IsPending g.objects
      → All IsPending h.objects
  Step-IsPending {i = i} {g = g} (begins {o = o} found rests) all =
      All-set IsPending g.objects i all
        ((All-get IsPending g.objects i all found).0, inr (inl (refl, refl)))
  Step-IsPending {i = i} {g = g} (sends {o = o} found runs puts) all =
      let (empty, stands) = All-get IsPending g.objects i all found in
      let transmits : o.state ≡ transmitting = elim stands [
        | inl (fresh, rests) ↦ absurd (cc (rests, runs))
        | inr (inl (state, _)) ↦ state
        | inr (inr (state, _)) ↦ state
      ] in
      All-set IsPending g.objects i all (empty, inr (inr (transmits, refl)))
  Step-IsPending {i = i} {g = g} (wakes {o = o} found waits gets) all =
      let (empty, stands) = All-get IsPending g.objects i all found in
      absurd (cc ((sync.take_value gets).0, empty))

  -- A call of `read_value` never returns: in every state that calls on the two objects reach, each
  -- object is as it was made or is being read, and no signal holds a state to wake a call, since
  -- nothing in the program takes the signals out of the channel.
  pub reads_never_end :
      {is : List ℕ} {g : GroupObjects sync} → Runs sync is g → All IsPending g.objects
  unfolding init
  reads_never_end unmoved =
      let empty = sync.new_value {A = GroupObjectState} in
      ((empty, inl (refl, refl)), ((empty, inl (refl, refl)), tt))
  reads_never_end (moved before step) = Step-IsPending step (reads_never_end before)

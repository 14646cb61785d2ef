-- ===== src/Node.antt =====
-- What the layers above the driver share: the state of a connection, the answers of the frame
-- pool, the clock, and a record of what was sent. A method is a function of this state.
use embassy_knx.Prelude.{ℕ, Bool, false, Option, List, [], ◌∷◌, ◌++◌}
use embassy_knx.Prelude.{ok, err, panic, pending}
use embassy_knx.Address.Individual.{IndividualAddress}
use embassy_knx.Frame.Types.{FrameError, FrameResult}
use embassy_knx.Frame.Dispatch.{Frame}

-- `States` (src/transport_layer.rs)
pub data States : Type 0 where
  closed open_idle open_wait connecting : States

-- `Connection` (src/transport_layer.rs). The counters are u8; a ticker is known by its handle.
pub record Connection : Type 0 where
  pub state : States
  pub seq_no_send : ℕ
  pub seq_no_recv : ℕ
  pub rep_count : ℕ
  pub src_addr : Option IndividualAddress
  pub connection_timeout : Option ℕ
  pub stored_frame : Option Frame

-- `ApplicationServiceInd` (src/application_layer.rs)
pub data ApplicationServiceInd : Type 0 where
  group_value_read : ℕ → ApplicationServiceInd

-- What a layer does to its surroundings: the steps of a confirmed transmission, and an
-- indication to the application.
pub data Effect : Type 0 where
  con_reset : Effect
  enqueue : Frame → Effect
  con_wait : Effect
  indicate : ApplicationServiceInd → Effect

-- `borrowed` is the flag of the `RefCell` around the connection, `pool` the answers of the
-- next allocations (none once the list ends), and `now` the instant that the clock shows.
pub record Node : Type 0 where
  pub connection : Connection
  pub borrowed : Bool
  pub pool : List Bool
  pub now : ℕ
  pub trace : List Effect

abbrev pub M : Type 0 → Type 0
M A = Node → FrameResult A × Node

abbrev pub pure : {A : Type 0} → A → M A
pure a n = (ok a, n)

abbrev pub fail : {A : Type 0} → FrameError → M A
fail e n = (err e, n)

abbrev pub panics : {A : Type 0} → M A
panics n = (panic, n)

-- A call that touches nothing of the state.
abbrev pub lift : {A : Type 0} → FrameResult A → M A
lift r n = (r, n)

abbrev pub bind_outcome : {A B : Type 0} → FrameResult A → (A → M B) → M B
bind_outcome (ok a) f n = f a n
bind_outcome (err e) f n = (err e, n)
bind_outcome panic f n = (panic, n)
bind_outcome pending f n = (pending, n)

infixl 5 ◌>>=◌ ◌>>◌
abbrev pub ◌>>=◌ : {A B : Type 0} → M A → (A → M B) → M B
◌>>=◌ m f n = let (r, n') = m n in bind_outcome r f n'

abbrev pub ◌>>◌ : {B : Type 0} → M (Unit {0}) → M B → M B
m >> k = m >>= λ _. k

abbrev pub get_connection : M Connection
get_connection n = (ok n.connection, n)

abbrev pub modify_connection : (Connection → Connection) → M (Unit {0})
modify_connection f n = (ok tt, record n { connection = f n.connection })

abbrev pub get_now : M ℕ
get_now n = (ok n.now, n)

abbrev pub emit : List Effect → M (Unit {0})
emit es n = (ok tt, record n { trace = n.trace ++ es })

abbrev pub answer : List Bool → Bool
answer [] = false
answer (a ∷ _) = a

abbrev pub rest_of : List Bool → List Bool
rest_of [] = []
rest_of (_ ∷ later) = later

-- A call that takes one block of the pool.
abbrev pub alloc : {A : Type 0} → (Bool → FrameResult A) → M A
alloc f n = (f (answer n.pool), record n { pool = rest_of n.pool })

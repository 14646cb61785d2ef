-- ===== src/Transport/Machine/Refine/Sessions.antt =====
-- Sessions of a connection against its specification (src/transport_layer.rs, `handle_ind`).
use embassy_knx.Prelude.{
  ◌%◌, ◌≤◌, ◌<◌, ◌≡◌, ◌≢◌, refl, ap, arith, All, Bool, true, Option, List, [], ◌∷◌, Bytes, length,
  ok, panic,
}
use embassy_knx.Frame.Types.{FrameResult}
use embassy_knx.Frame.Header.{decode, IsBytes, header_ind}
use embassy_knx.Frame.Dispatch
use embassy_knx.Frame.Dispatch.{standard}
use embassy_knx.Frame.Writer.{Platform}
use embassy_knx.Frame.Standard.Reads.{Reads, Reads-decode}
use embassy_knx.Node.{Node, Effect}
use embassy_knx.Transport.Actions.{new}
use embassy_knx.Transport.Machine.{handle_ind}
use embassy_knx.Transport.Machine.Blocks.{Enough, Enough-next, Enough-left, handle_ind-TakesOne}
use embassy_knx.Transport.Machine.Invariant.{Inv, new-Inv, handle_ind-Inv}
use embassy_knx.Transport.Machine.Sending.{Kind, ind_of}
use embassy_knx.Transport.Machine.Spec.{Link, shut, link, passed_on, Replies}
use embassy_knx.Transport.Machine.Spec.Sessions.{
  Turn, SpecRun, over, turn, AllHonest, SpecRun-AllHonest,
}
use embassy_knx.Transport.Machine.Refine.{handle_ind-refines}
use embassy_knx.Transport.Machine.Refine.Steps.{IsStep}
use embassy_knx.Transport.Types.{TransportServiceInd}

-- A telegram of a session: its kind and its bytes.
abbrev pub Telegram : Type 0
Telegram = Kind × Bytes

-- A buffer of at least eight bytes, in which the readers find the fields of a header.
abbrev pub IsReadable : Telegram → Type 0
IsReadable (kind, b) = (8 ≤ length b) × IsBytes b

-- The telegrams one after the other: the results, and the state after them.
unfoldable pub conversation :
    Platform → List Telegram → Node → List (FrameResult (Option TransportServiceInd)) × Node
conversation env [] n = ([], n)
conversation env ((kind, b) ∷ later) n =
    let (r, n') = handle_ind env (ind_of kind (standard b)) n in
    let (rs, n'') = conversation env later n' in (r ∷ rs, n'')

-- The turns are those of the telegrams, in order: the sender and the number are the fields of the
-- header, and what each turn passes on is what the call returned.
abbrev pub Agrees :
    List Telegram → List (FrameResult (Option TransportServiceInd)) → List Turn → Type 0
Agrees [] [] [] = Unit
Agrees ((kind, b) ∷ later) (r ∷ rs) (t ∷ turns) =
    (t.kind ≡ kind)
    × (t.sender ≡ (decode b).src)
    × (t.seq ≡ (decode b).tpci % 8)
    × (r ≡ ok (passed_on (standard b) t.out))
    × Agrees later rs turns
Agrees _ _ _ = ⊥

-- From one trace to the other by the replies of the turns, each sent and confirmed to its sender.
abbrev pub Replied : List Turn → List Effect → List Effect → Type 0
Replied [] before now = now ≡ before
Replied (t ∷ turns) before now =
    (between : List Effect) × Replies (record { raw = t.sender }) t.reply before between
    × Replied turns between now

begins_at : {l m r : Link} {turns : List Turn} → l ≡ m → SpecRun l turns r → SpecRun m turns r
begins_at same run = rw (← same) run

src-bounded : (b : Bytes) → 8 ≤ length b → IsBytes b → (decode b).src < 65536
src-bounded =
    header_ind (λ b. IsBytes b → (decode b).src < 65536)
      (λ b0 b1 b2 b3 b4 b5 b6 b7 rest bytes. omega arith)

module _ (env : Platform) where
  step :
      (kind : Kind) (b : Bytes) (n : Node) {blocks : List Bool}
      → 8 ≤ length b
      → IsBytes b
      → n.pool ≡ true ∷ blocks
      → Inv n.connection
      → (handle_ind env (ind_of kind (standard b)) n).0 ≢ panic
      → IsStep
          (record { raw = (decode b).src })
          ((decode b).tpci % 8)
          kind
          (standard b)
          n
          (handle_ind env (ind_of kind (standard b)) n)
  unfolding Dispatch.src_addr Dispatch.tpci_seq
  step kind b n long bytes free inv ends =
      let reads : Reads env b (decode b) = Reads-decode env b long bytes in
      handle_ind-refines env kind (standard b) n reads.reads_src reads.reads_seq (omega arith) free
        (src-bounded b long bytes) inv ends

  -- A session of any telegrams refines the specification, from every state of the invariant.
  session-SpecRun :
      (ts : List Telegram) (n : Node)
      → All IsReadable ts
      → Enough (length ts) n.pool
      → Inv n.connection
      → All (λ r. r ≢ panic) (conversation env ts n).0
      → let (rs, n') = conversation env ts n in
        (turns : List Turn) × SpecRun (link n.connection) turns (link n'.connection)
        × Agrees ts rs turns
        × Replied turns n.trace n'.trace
  unfolding conversation
  session-SpecRun [] n readable blocks inv ends = ([], over, tt, refl)
  session-SpecRun ((kind, b) ∷ later) n ((long, bytes), others) blocks inv (goes_on, ends) =
      let ind = ind_of kind (standard b) in
      let n' : Node = (handle_ind env ind n).1 in
      let first = step kind b n long bytes (Enough-next (length later) n.pool blocks) inv goes_on in
      let (turns, run, agrees, replied) =
        session-SpecRun later n' others
          (Enough-left (length later) n.pool n'.pool blocks (handle_ind-TakesOne env ind n))
          (handle_ind-Inv env ind n inv goes_on) ends in
      (
        _,
        turn first.step run,
        (refl, refl, refl, first.outcome, agrees),
        (_, first.replies, replied),
      )

  -- A new connection that gets any telegrams in any order, where blocks are free for all replies
  -- and no call panics, does what the specification allows: there is a run of the abstract link,
  -- from shut, with the same telegrams, results and replies. In it every acknowledgement is of a
  -- number that was passed on to the application since the last connect.
  pub session_refines :
      (ts : List Telegram) (n : Node)
      → n.connection ≡ new
      → All IsReadable ts
      → Enough (length ts) n.pool
      → All (λ r. r ≢ panic) (conversation env ts n).0
      → let (rs, n') = conversation env ts n in
        (turns : List Turn) × SpecRun shut turns (link n'.connection)
        × Agrees ts rs turns
        × Replied turns n.trace n'.trace
        × AllHonest [] turns
  unfolding new
  session_refines ts n fresh readable blocks ends =
      let (turns, run, agrees, replied) =
        session-SpecRun ts n readable blocks (rw fresh new-Inv) ends in
      (
        turns,
        begins_at (ap link fresh) run,
        agrees,
        replied,
        SpecRun-AllHonest [] (begins_at (ap link fresh) run) tt,
      )

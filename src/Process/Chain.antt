-- ===== src/Process/Chain.antt =====
-- The streams that Pipeline.Run joins (sandbox/pipeline.go).
use cli_toolkit.Base.{ℕ, suc, List, [], ◌∷◌, Option, none, some, ◌≡◌, refl, ap, subst, All}
use cli_toolkit.Process.{
  buffer, pipe_in, Source, pipe_out, Process, Stream, start, settle_input, choose_sink, or_new,
  set_stdin, stdout_pipe,
}
use cli_toolkit.Process.Pipeline.{connect}

-- Neither a writer nor a buffer nor a pipe is set for the output.
abbrev pub IsOpen : Process → Type 0
IsOpen p = (p.output ≡ none) × (p.out_buf ≡ none) × (p.stdout_end ≡ none)

-- The streams that processes start with; `fresh` numbers what each start makes.
abbrev pub streams : (ℕ → ℕ × ℕ × ℕ) → ℕ → List Process → List Stream
streams fresh i [] = []
streams fresh i (p ∷ ps) = let (a, b, c) = fresh i in (start a b c p).1 ∷ streams fresh (suc i) ps

abbrev ReadsFrom : Option Source → Stream → Type 0
ReadsFrom none s = Unit {0}
ReadsFrom (some r) s = s.from ≡ r

-- Each stream writes to a pipe of its own that the next one reads from, and the last to the buffer `out`.
-- The first one reads from `input` where there is one.
abbrev pub Chain : ℕ → ℕ → Option Source → List Stream → Type 0
Chain out k input [] = ⊥
Chain out k input (s ∷ []) = ReadsFrom input s × (s.to ≡ buffer out)
Chain out k input (s ∷ t ∷ ss) =
    ReadsFrom input s × (s.to ≡ pipe_in k) × Chain out (suc k) (some (pipe_out k)) (t ∷ ss)

start-ReadsFrom : (a b c : ℕ) (p : Process) → ReadsFrom p.input (start a b c p).1
unfolding start settle_input
start-ReadsFrom a b c p = on_input p.input
  where
    on_input :
        (input : Option Source) → ReadsFrom input (start a b c (record p { input = input })).1
    on_input none = tt
    on_input (some r) = refl

start-buffer :
    (a b c out : ℕ) (p : Process)
    → p.output ≡ none
    → p.out_buf ≡ some out
    → (start a b c p).1.to ≡ buffer out
unfolding start choose_sink
start-buffer a b c out p no_writer buf = rw (no_writer, buf) refl

start-pipe :
    (a b c k : ℕ) (p : Process)
    → p.output ≡ none
    → p.out_buf ≡ none
    → p.stdout_end ≡ some k
    → (start a b c p).1.to ≡ pipe_in k
unfolding start choose_sink
start-pipe a b c k p no_writer no_buf end = rw (no_writer, no_buf, end) refl

-- A process that is joined to a next one.
linked :
    (a b c k : ℕ) (p : Process) (input : Option Source)
    → p.input ≡ input
    → IsOpen p
    → let s = (start a b c (stdout_pipe k p).0).1 in
      ReadsFrom input s × (s.to ≡ pipe_in k) × ((stdout_pipe k p).1 ≡ pipe_out k)
unfolding stdout_pipe
linked a b c k p input e (no_writer, no_buf, no_end) =
    let new_end : or_new p.stdout_end k ≡ k = rw no_end refl in
    let ahead = record p { stdout_end = some (or_new p.stdout_end k) } in
    (
      subst (λ i. ReadsFrom i (start a b c ahead).1) e (start-ReadsFrom a b c ahead),
      start-pipe a b c k ahead no_writer no_buf (ap some new_end),
      ap pipe_out new_end,
    )

connected :
    (fresh : ℕ → ℕ × ℕ × ℕ) (out err i k : ℕ) (p : Process) (ps : List Process)
    (input : Option Source)
    → p.input ≡ input
    → IsOpen p
    → All IsOpen ps
    → Chain out k input (streams fresh i (connect out err k p ps))
unfolding connect set_stdin
connected fresh out err i k p [] input e (no_writer, _, _) os =
    let (a, b, c) = fresh i in
    let last = record p { out_buf = some out; err_buf = some err } in
    (
      subst (λ i. ReadsFrom i (start a b c last).1) e (start-ReadsFrom a b c last),
      start-buffer a b c out last no_writer refl,
    )
connected fresh out err i k p (q ∷ []) input e o (oq, os) =
    let (reads, writes, next) = linked (fresh i).0 (fresh i).1 (fresh i).2 k p input e o in
    (
      reads,
      writes,
      connected fresh out err (suc i) (suc k) (record q { input = some (stdout_pipe k p).1 }) []
          (some (pipe_out k)) (ap some next) oq os,
    )
connected fresh out err i k p (q ∷ r ∷ rs) input e o (oq, os) =
    let (reads, writes, next) = linked (fresh i).0 (fresh i).1 (fresh i).2 k p input e o in
    (
      reads,
      writes,
      connected fresh out err (suc i) (suc k) (record q { input = some (stdout_pipe k p).1 })
          (r ∷ rs) (some (pipe_out k)) (ap some next) oq os,
    )

-- Where no stage has an output of its own, each stage writes to a pipe of its own that the next stage
-- reads from, and the last one writes to the pipeline's buffer.
pub connect-Chain :
    (fresh : ℕ → ℕ × ℕ × ℕ) (out err i k : ℕ) (p : Process) (ps : List Process)
    → IsOpen p
    → All IsOpen ps
    → Chain out k p.input (streams fresh i (connect out err k p ps))
connect-Chain fresh out err i k p ps o os = connected fresh out err i k p ps p.input refl o os

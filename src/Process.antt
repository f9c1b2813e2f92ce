-- ===== src/Process.antt =====
-- sandbox/process.go: `Process`, which runs a function with streams of its own. Writers, readers,
-- buffers and pipes are told apart by numbers; a function that may make one takes the number that it has
-- then. What the runner does and answers is a parameter; the mutex is dropped.
mod Tests
pub mod Pipeline
pub mod Chain
pub mod Exit
use cli_toolkit.Base.{ℕ, Bool, true, false, List, [], ◌∷◌, Option, none, some, Bytes}
use cli_toolkit.Base.Int.{ℤ, pos}

-- Where a stream writes to: a writer that the caller gave, a buffer, or a pipe's end for writing.
pub data Sink : Type 0 where
  writer buffer pipe_in : ℕ → Sink

-- Where a stream reads from: a reader that the caller gave, or a pipe's end for reading.
pub data Source : Type 0 where
  reader pipe_out : ℕ → Source

-- Process. The two ends of a pipe are one field, since the code makes them together.
pub record Process : Type 0 where
  pub args : List Bytes
  pub is_tty : Bool
  pub runner : Option ℕ
  pub input : Option Source
  pub output : Option Sink
  pub errors : Option Sink
  pub stdout_end : Option ℕ
  pub stderr_end : Option ℕ
  pub stdin_end : Option ℕ
  pub out_buf : Option ℕ
  pub err_buf : Option ℕ

-- toolkit.Stream, as Run fills it.
pub record Stream : Type 0 where
  pub from : Source
  pub to : Sink
  pub err_to : Sink
  pub is_piped : Bool
  pub is_tty : Bool

-- What a run fails with; the last is an error that the runner returns.
pub data RunError : Type 0 where
  no_runner nil_runtime : RunError
  runner_failed : ℕ → RunError

-- ProcessResult, with the buffers of which the bytes are reported.
pub record ProcessResult : Type 0 where
  pub error : Option RunError
  pub exit_code : ℤ
  pub stdout : Option ℕ
  pub stderr : Option ℕ

-- NewProcess
unfoldable pub new_process : Option ℕ → Bool → Process
new_process fn is_tty = record {
  args = [];
  is_tty = is_tty;
  runner = fn;
  input = none;
  output = none;
  errors = none;
  stdout_end = none;
  stderr_end = none;
  stdin_end = none;
  out_buf = none;
  err_buf = none;
}

abbrev pub or_new {ℓ} : {A : Type ℓ} → Option A → A → A
or_new none new = new
or_new (some a) new = a

-- Process.StdoutPipe
unfoldable pub stdout_pipe : ℕ → Process → Process × Source
stdout_pipe new p =
    (record p { stdout_end = some (or_new p.stdout_end new) }, pipe_out (or_new p.stdout_end new))

-- Process.StderrPipe
unfoldable pub stderr_pipe : ℕ → Process → Process × Source
stderr_pipe new p =
    (record p { stderr_end = some (or_new p.stderr_end new) }, pipe_out (or_new p.stderr_end new))

-- Process.CaptureStdout
unfoldable pub capture_stdout : ℕ → Process → Process × ℕ
capture_stdout new p = (record p { out_buf = some (or_new p.out_buf new) }, or_new p.out_buf new)

-- Process.CaptureStderr
unfoldable pub capture_stderr : ℕ → Process → Process × ℕ
capture_stderr new p = (record p { err_buf = some (or_new p.err_buf new) }, or_new p.err_buf new)

-- Process.SetStdin, SetStdout, SetStderr and SetArgs
unfoldable pub set_stdin : Option Source → Process → Process
set_stdin r p = record p { input = r }

unfoldable pub set_stdout : Option Sink → Process → Process
set_stdout w p = record p { output = w }

unfoldable pub set_stderr : Option Sink → Process → Process
set_stderr w p = record p { errors = w }

unfoldable pub set_args : List Bytes → Process → Process
set_args args p = record p { args = args }

-- Process.Write, up to the write on the pipe that it gives.
unfoldable pub write_end : ℕ → Process → Process × ℕ
write_end new p = elim p.stdin_end [
  | none ↦ (record p { stdin_end = some new; input = some (pipe_out new) }, new)
  | some w ↦ (p, w)
]

-- The part of Run that settles the input; a pipe that nothing writes to stands in where there is none.
unfoldable pub settle_input : ℕ → Process → Process
settle_input new p = elim p.input [
  | none ↦ record p {
    stdin_end = some (or_new p.stdin_end new);
    input = some (pipe_out (or_new p.stdin_end new));
  }
  | some r ↦ p
]

-- Where Run sends one of the two outputs, from the writer, the buffer and the pipe that are set.
unfoldable pub choose_sink : Option Sink → Option ℕ → Option ℕ → ℕ → Sink
choose_sink (some w) buf end new = w
choose_sink none (some b) end new = buffer b
choose_sink none none (some e) new = pipe_in e
choose_sink none none none new = buffer new

-- The buffer that is set then; a new one where nothing else was set.
unfoldable pub choose_buffer : Option Sink → Option ℕ → Option ℕ → ℕ → Option ℕ
choose_buffer (some w) buf end new = buf
choose_buffer none (some b) end new = some b
choose_buffer none none (some e) new = none
choose_buffer none none none new = some new

abbrev pub is_some {ℓ} : {A : Type ℓ} → Option A → Bool
is_some none = false
is_some (some a) = true

-- The part of Run before the runner: the process and the stream, with the numbers of a new pipe and of
-- two new buffers.
unfoldable pub start : ℕ → ℕ → ℕ → Process → Process × Stream
unfolding settle_input choose_sink choose_buffer
start new_in new_out new_err p =
    let fed = settle_input new_in p in
    (
      record fed {
        out_buf = choose_buffer p.output p.out_buf p.stdout_end new_out;
        err_buf = choose_buffer p.errors p.err_buf p.stderr_end new_err;
      },
      record {
        from = or_new fed.input (pipe_out new_in);
        to = choose_sink p.output p.out_buf p.stdout_end new_out;
        err_to = choose_sink p.errors p.err_buf p.stderr_end new_err;
        is_piped = is_some p.input;
        is_tty = p.is_tty;
      },
    )

abbrev pub refused : RunError → ProcessResult
refused e = record { error = some e; exit_code = pos 1; stdout = none; stderr = none }

abbrev pub reported : Process → ℤ × Option ℕ → ProcessResult
reported p (code, e) = record {
  error = elim e [ none ↦ none | some n ↦ some (runner_failed n) ];
  exit_code = code;
  stdout = p.out_buf;
  stderr = p.err_buf;
}

-- Process.Run; `given` is whether the runtime is not nil, and `exec` what a runner returns on a stream.
-- Clone and SetStream do not fail then.
unfoldable pub run :
    (ℕ → Stream → ℤ × Option ℕ) → Bool → ℕ → ℕ → ℕ → Process → Process × ProcessResult
unfolding start
run exec given new_in new_out new_err p = elim p.runner [
  | none ↦ (p, refused no_runner)
  | some fn ↦ elim given [
    | false ↦ (p, refused nil_runtime)
    | true ↦
        let (ready, stream) = start new_in new_out new_err p in
        (ready, reported ready (exec fn stream))
  ]
]

-- Process.RunWithIO
unfoldable pub run_with_io :
    (ℕ → Stream → ℤ × Option ℕ) → Bool → ℕ → ℕ → ℕ → Source → Process → Process × ProcessResult
unfolding run set_stdin
run_with_io exec given new_in new_out new_err r p =
    run exec given new_in new_out new_err (set_stdin (some r) p)

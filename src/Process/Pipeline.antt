-- ===== src/Process/Pipeline.antt =====
-- sandbox/pipeline.go: `Pipeline`, which runs processes at once, each reading what the one before writes.
-- No process stands in two stages. In what order the stages finish is a parameter.
use cli_toolkit.Base.{ℕ, suc, Bool, true, false, List, [], ◌∷◌, Option, none, some, Bytes, map}
use cli_toolkit.Base.Int.{ℤ, pos}
use cli_toolkit.Process.{
  Process, Stream, RunError, ProcessResult, new_process, stdout_pipe, set_stdin, run, or_new,
}

-- PipelineStage
pub record PipelineStage : Type 0 where
  pub name : Bytes
  pub runner : Option ℕ
  pub process : Option Process

-- Pipeline
pub record Pipeline : Type 0 where
  pub stages : List PipelineStage
  pub out_buf : Option ℕ
  pub err_buf : Option ℕ

pub data PipelineError : Type 0 where
  no_runtime no_stages : PipelineError
  stages_failed : List RunError → PipelineError

-- PipelineResult
pub record PipelineResult : Type 0 where
  pub error : Option PipelineError
  pub exit_code : ℤ
  pub stdout : Option ℕ
  pub stderr : Option ℕ

-- Stage and StageWithName
unfoldable pub stage : Bytes → Option ℕ → PipelineStage
stage name runner = record { name = name; runner = runner; process = none }

unfoldable pub stage_with_name : Bytes → Process → PipelineStage
stage_with_name name p = record { name = name; runner = p.runner; process = some p }

-- Pipeline.CaptureStdout and Pipeline.CaptureStderr
unfoldable pub capture_last_stdout : ℕ → Pipeline → Pipeline × ℕ
capture_last_stdout new p =
    (record p { out_buf = some (or_new p.out_buf new) }, or_new p.out_buf new)

unfoldable pub capture_last_stderr : ℕ → Pipeline → Pipeline × ℕ
capture_last_stderr new p =
    (record p { err_buf = some (or_new p.err_buf new) }, or_new p.err_buf new)

-- The process of a stage.
unfoldable pub process_of : PipelineStage → Process
unfolding new_process
process_of s = or_new s.process (new_process s.runner false)

-- The loop that joins each process to the next, and the buffers that the last one gets. `k` numbers the
-- pipes that are made.
unfoldable pub connect : ℕ → ℕ → ℕ → Process → List Process → List Process
unfolding stdout_pipe set_stdin
connect out err k p [] = record p { out_buf = some out; err_buf = some err } ∷ []
connect out err k p (q ∷ ps) =
    let (ahead, r) = stdout_pipe k p in ahead ∷ connect out err (suc k) (set_stdin (some r) q) ps

abbrev pub errors_of : List (Option RunError) → List RunError
errors_of [] = []
errors_of (none ∷ es) = errors_of es
errors_of (some e ∷ es) = e ∷ errors_of es

abbrev pub joined : Option ℕ → Option ℕ → List RunError → PipelineResult
joined out err [] = record { error = none; exit_code = pos 0; stdout = out; stderr = err }
joined out err (e ∷ es) = record {
  error = some (stages_failed (e ∷ es));
  exit_code = pos 1;
  stdout = out;
  stderr = err;
}

-- The end of Run, from the errors that the stages sent.
unfoldable pub collect : ℕ → ℕ → List (Option RunError) → PipelineResult
collect out err es = joined (some out) (some err) (errors_of es)

-- A process with the numbers of what its run makes.
abbrev pub run_all :
    (ℕ → Stream → ℤ × Option ℕ)
    → (ℕ → ℕ × ℕ × ℕ)
    → ℕ
    → List Process
    → List (Process × ProcessResult)
run_all exec fresh k [] = []
run_all exec fresh k (p ∷ ps) =
    let (a, b, c) = fresh k in run exec true a b c p ∷ run_all exec fresh (suc k) ps

abbrev pub sent : List (Process × ProcessResult) → List (Option RunError)
sent [] = []
sent ((p, r) ∷ rs) = r.error ∷ sent rs

-- The runs of the stages of a pipeline that has some.
unfoldable pub stage_runs :
    (ℕ → Stream → ℤ × Option ℕ)
    → (ℕ → ℕ × ℕ × ℕ)
    → ℕ
    → ℕ
    → ℕ
    → PipelineStage
    → List PipelineStage
    → List (Process × ProcessResult)
unfolding run connect process_of
stage_runs exec fresh out err k s ss =
    run_all exec fresh 0 (connect out err k (process_of s) (map process_of ss))

-- Pipeline.Run. `out` and `err` are the numbers of the buffers that it makes where it has none, and `k`
-- that of the first pipe; `order` is the order that the stages finish in.
unfoldable pub run_pipeline :
    (ℕ → Stream → ℤ × Option ℕ)
    → (ℕ → ℕ × ℕ × ℕ)
    → (List (Option RunError) → List (Option RunError))
    → Bool
    → ℕ
    → ℕ
    → ℕ
    → Pipeline
    → PipelineResult
unfolding stage_runs collect
run_pipeline exec fresh order false out err k p = record {
  error = some no_runtime;
  exit_code = pos 1;
  stdout = none;
  stderr = none;
}
run_pipeline exec fresh order true out err k p = elim p.stages [
  | [] ↦ record { error = some no_stages; exit_code = pos 1; stdout = none; stderr = none }
  | s ∷ ss ↦
      let o = or_new p.out_buf out in
      let e = or_new p.err_buf err in collect o e (order (sent (stage_runs exec fresh o e k s ss)))
]

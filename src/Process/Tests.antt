-- ===== src/Process/Tests.antt =====
-- A pipeline of three stages, of which one exits with the code 2 and no error.
use cli_toolkit.Base.{
  ℕ, true, false, List, [], ◌∷◌, Option, none, some, ◌≡◌, ◌≢◌, refl, codes, ◌⊎◌, ◌==◌,
  if◌then◌else◌,
}
use cli_toolkit.Base.Int.{ℤ, pos}
use cli_toolkit.Process.{
  buffer, Stream, RunError, new_process, start, choose_sink, capture_stdout, stdout_pipe, run,
}
use cli_toolkit.Process.Pipeline.{
  PipelineStage, stage, process_of, connect, collect, sent, stage_runs, run_pipeline,
}
use cli_toolkit.Process.Chain.{streams, Chain, connect-Chain}
use cli_toolkit.Process.Exit.{IsReordering, Succeeded, run_pipeline_exit}

abbrev fresh : ℕ → ℕ × ℕ × ℕ
fresh i = (i, i, i)

-- The runner 1 exits with the code 2, and the runner 9 with an error.
abbrev exec : ℕ → Stream → ℤ × Option ℕ
exec fn s = if fn == 1 then (pos 2, none) else if fn == 9 then (pos 1, some 4) else (pos 0, none)

abbrev in_order : List (Option RunError) → List (Option RunError)
in_order es = es

in_order-IsReordering : IsReordering in_order
in_order-IsReordering = record { all_kept = λ P es h. h; all_reflected = λ P es h. h }

abbrev first : PipelineStage
first = stage (codes "a") (some 0)

abbrev second : PipelineStage
second = stage (codes "b") (some 1)

-- Of two outputs that are set, the writer goes before the buffer and the buffer before the pipe: a
-- process with a captured output does not write to its pipe.
captured_not_piped :
    (start 7 8 9 (stdout_pipe 5 (capture_stdout 3 (new_process (some 0) false)).0).0).1.to
    ≡ buffer 3
unfolding start choose_sink stdout_pipe capture_stdout new_process
captured_not_piped = refl

exit_code_lost :
    (run_pipeline exec fresh in_order true 100 101 50
      (record { stages = first ∷ second ∷ []; out_buf = none; err_buf = none })).exit_code
    ≡ pos 0
unfolding run_pipeline stage_runs collect run connect process_of stage new_process
exit_code_lost = refl

connect-Chain_example : Chain 100 50 none (
    streams fresh 0
      (connect 100 101 50 (process_of first) (process_of second ∷ process_of first ∷ [])))
unfolding process_of stage new_process
connect-Chain_example =
    connect-Chain fresh 100 101 0 50 (process_of first) (process_of second ∷ process_of first ∷ [])
      (refl, refl, refl) ((refl, refl, refl), ((refl, refl, refl), tt))

run_pipeline_exit_example :
    let result =
      run_pipeline exec fresh in_order true 100 101 50
        (record { stages = first ∷ second ∷ []; out_buf = none; err_buf = none }) in
    let es = sent (stage_runs exec fresh 100 101 50 first (second ∷ [])) in
    ((result.error ≡ none) × (result.exit_code ≡ pos 0) × Succeeded es)
    ⊎ ((result.error ≢ none) × (result.exit_code ≡ pos 1) × ¬ Succeeded es)
run_pipeline_exit_example =
    run_pipeline_exit exec fresh in_order 100 101 50 none none first (second ∷ [])
      in_order-IsReordering

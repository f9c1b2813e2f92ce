-- ===== src/Process/Exit.antt =====
-- What Pipeline.Run reports (sandbox/pipeline.go).
use cli_toolkit.Base.{
  ℕ, true, List, [], ◌∷◌, Option, none, some, ◌≡◌, ◌≢◌, refl, All, ◌⊎◌, inl, inr,
}
use cli_toolkit.Base.Int.{ℤ, pos}
use cli_toolkit.Process.{Stream, RunError, or_new}
use cli_toolkit.Process.Pipeline.{
  PipelineStage, errors_of, joined, collect, sent, stage_runs, run_pipeline,
}

-- The channel gives each error that was sent, in some order.
pub record IsReordering (order : List (Option RunError) → List (Option RunError)) : Type 1 where
  pub all_kept :
      (P : Option RunError → Type 0) (es : List (Option RunError)) → All P es → All P (order es)
  pub all_reflected :
      (P : Option RunError → Type 0) (es : List (Option RunError)) → All P (order es) → All P es

abbrev pub Succeeded : List (Option RunError) → Type 0
Succeeded = All (λ e. e ≡ none)

errors_of-empty : (es : List (Option RunError)) → Succeeded es → errors_of es ≡ []
errors_of-empty [] h = refl
errors_of-empty (none ∷ es) (_, h) = errors_of-empty es h
errors_of-empty (some e ∷ es) (e', h) = absurd cc

Succeeded-errors_of : (es : List (Option RunError)) → errors_of es ≡ [] → Succeeded es
Succeeded-errors_of [] h = tt
Succeeded-errors_of (none ∷ es) h = (refl, Succeeded-errors_of es h)
Succeeded-errors_of (some e ∷ es) h = absurd cc

-- The two ends of a run, from the errors that the stages sent.
collect-branches :
    (out err : ℕ) (es : List (Option RunError))
    → (((collect out err es).error ≡ none)
        × ((collect out err es).exit_code ≡ pos 0)
        × Succeeded es)
      ⊎ (((collect out err es).error ≢ none)
          × ((collect out err es).exit_code ≡ pos 1)
          × ¬ Succeeded es)
unfolding collect
collect-branches out err es = on_errors (errors_of es) refl
  where
    on_errors :
        (found : List RunError)
        → errors_of es ≡ found
        → (((joined (some out) (some err) found).error ≡ none)
            × ((joined (some out) (some err) found).exit_code ≡ pos 0)
            × Succeeded es)
          ⊎ (((joined (some out) (some err) found).error ≢ none)
              × ((joined (some out) (some err) found).exit_code ≡ pos 1)
              × ¬ Succeeded es)
    on_errors [] h = inl (refl, refl, Succeeded-errors_of es h)
    on_errors (e ∷ rest) h =
        inr ((λ n. absurd cc), refl, (λ all. let none_left = errors_of-empty es all in absurd cc))

pub run_pipeline_exit :
    (exec : ℕ → Stream → ℤ × Option ℕ) (fresh : ℕ → ℕ × ℕ × ℕ)
    (order : List (Option RunError) → List (Option RunError)) (out err k : ℕ) (ob eb : Option ℕ)
    (s : PipelineStage) (ss : List PipelineStage)
    → IsReordering order
    → let result =
        run_pipeline exec fresh order true out err k
          (record { stages = s ∷ ss; out_buf = ob; err_buf = eb }) in
      let es = sent (stage_runs exec fresh (or_new ob out) (or_new eb err) k s ss) in
      ((result.error ≡ none) × (result.exit_code ≡ pos 0) × Succeeded es)
      ⊎ ((result.error ≢ none) × (result.exit_code ≡ pos 1) × ¬ Succeeded es)
unfolding run_pipeline
run_pipeline_exit exec fresh order out err k ob eb s ss ho =
    let es = sent (stage_runs exec fresh (or_new ob out) (or_new eb err) k s ss) in
    elim (collect-branches (or_new ob out) (or_new eb err) (order es)) [
      | inl (a, b, c) ↦ inl (a, b, ho.all_reflected (λ e. e ≡ none) es c)
      | inr (a, b, c) ↦ inr (a, b, λ all. c (ho.all_kept (λ e. e ≡ none) es all))
    ]

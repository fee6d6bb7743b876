-- ===== src/Builder/Local/Reports.antt =====
-- What a local run of crates/paur-builder/src/lib.rs reports.
use paur.Prelude.{
  negsuc, ◌≡◌, refl, true, false, ◌||◌, [], arith, unwrap_or, All, inl, inr, Bool-cases, is_empty,
}
use paur.Prelude.Text.{codes}
use paur.Prelude.Results.{ok, Result-cases}
use paur.Builder.{BuildOutcome, Container, list_artifacts, join, is_zero}
use paur.Builder.Laws.{IsArtifactIn, listed}
use paur.Builder.Local.{LocalBuildRequest, run_local_in_container, local_outcome}

-- A local run reports artifacts only if it ended with code 0, it is never cancelled, and each file that
-- it reports stands in the output directory of the request under the name of an artifact.
run_local-artifacts :
    (req : LocalBuildRequest) (c : Container) (o : BuildOutcome)
    → run_local_in_container req c ≡ ok o
    → ((is_empty o.pkg_files || is_zero o.exit_code) ≡ true)
      × (o.cancelled ≡ false)
      × All (IsArtifactIn (join req.work_dir (codes "out"))) o.pkg_files
unfolding run_local_in_container local_outcome
run_local-artifacts req c o h =
    let out = join req.work_dir (codes "out") in
    elim (Bool-cases (is_zero (unwrap_or c.code (negsuc 0)))) [
      | inr e ↦
          let none_there : o.pkg_files ≡ [] = ground arith in rw none_there (refl, ground arith, tt)
      | inl e ↦ elim (Result-cases (list_artifacts out c.out_names)) [
        | inr (x, bad) ↦ absurd (ground arith)
        | inl (fs, good) ↦
            let same : o.pkg_files ≡ fs = ground arith in
            (ground arith, ground arith, rw same (listed out c.out_names fs good))
      ]
    ]

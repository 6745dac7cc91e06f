-- ===== src/Runner/Resume/Tests.antt =====
-- cmd/runner/resume.go: a resumed run of four cells.
use probatorium.Base.{
  ℕ, ◌==◌, if◌then◌else◌, true, false, List, [], ◌∷◌, String, Option, some, none, ◌≡◌, refl,
}
use probatorium.Interleave.Schedule.{Cell}
use probatorium.Runner.Resume.{ResultFile, RunEntry, entries, drop_completed_cells}
use probatorium.Runner.Resume.Kept.{without, is_done, drop_completed_cells-without}

abbrev show_run : ℕ → String
show_run n = if n == 0 then "0" else "1"

abbrev same : String → String
same s = s

abbrev cell : ℕ → String → Cell String String
cell run server = record { run_idx = run; scenario = "get"; server = server }

abbrev four_cells : List (Cell String String)
four_cells = cell 0 "celeris" ∷ cell 0 "gin" ∷ cell 1 "celeris" ∷ cell 1 "gin" ∷ []

abbrev file : String → String → ResultFile
file server status = record {
  is_dir = false;
  is_json = true;
  content =
      some (record { run_idx = 0; scenario_name = "get"; server_name = server; status = status });
}

abbrev broken : ResultFile
broken = record { is_dir = false; is_json = true; content = none }

abbrev tree : String → List RunEntry
tree gin_status =
    record { is_dir = false; is_run = true; scenarios = none }
    ∷ record {
      is_dir = true;
      is_run = true;
      scenarios = some (
          record {
            is_dir = true;
            files = some (broken ∷ file "celeris" "ok" ∷ file "gin" gin_status ∷ []);
          }
          ∷ []);
    }
    ∷ []

abbrev resume : List (Cell String String) → String → Option (List (Cell String String))
resume cells gin_status = drop_completed_cells show_run same same cells (entries (tree gin_status))

dnf_runs_again :
    resume four_cells "dnf" ≡ some (cell 0 "gin" ∷ cell 1 "celeris" ∷ cell 1 "gin" ∷ [])
unfolding drop_completed_cells
dnf_runs_again = refl

suspect_is_final : resume four_cells "suspect" ≡ some (cell 1 "celeris" ∷ cell 1 "gin" ∷ [])
unfolding drop_completed_cells
suspect_is_final = refl

drop_completed_cells-without_example :
    resume four_cells "dnf" ≡ some (without (is_done show_run same same (tree "dnf")) four_cells)
drop_completed_cells-without_example =
    drop_completed_cells-without show_run same same four_cells (tree "dnf")

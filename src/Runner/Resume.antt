-- ===== src/Runner/Resume.antt =====
-- cmd/runner/resume.go: which cells of a schedule a resumed run leaves out. What a directory holds
-- is an input; `none` stands where it, or a file, cannot be read or parsed. The names of scenarios
-- and servers, and the decimal form of a run index, are parameters.
pub mod Kept
mod Tests
use Prim.Native.String.{◌++◌ as ◌+++◌}
use text.Mathlib.Text.{◌==◌ as str_eq}
use probatorium.Base.{
  ℕ, if◌then◌else◌, ◌||◌, ◌&&◌, not, Bool, true, false, List, [], ◌∷◌, ◌++◌, String, Option, none,
  some,
}
use probatorium.Interleave.Schedule.{Cell}

abbrev cell_ok : String
cell_ok = "ok"

abbrev cell_not_applicable : String
cell_not_applicable = "not_applicable"

abbrev cell_dnf : String
cell_dnf = "dnf"

abbrev cell_suspect : String
cell_suspect = "suspect"

pub cell_is_final : String → Bool
cell_is_final status =
    if str_eq status cell_dnf
    then false
    else if str_eq status cell_ok
        || (str_eq status cell_suspect || (str_eq status cell_not_applicable || str_eq status ""))
    then true
    else false

-- What the scan reads of a cell's file.
pub record CellResult : Type 0 where
  pub run_idx : ℕ
  pub scenario_name : String
  pub server_name : String
  pub status : String

-- The three levels of a results tree. `is_json` and `is_run` say whether the name ends in .json and
-- whether it reads as run<N>.
pub record ResultFile : Type 0 where
  pub is_dir : Bool
  pub is_json : Bool
  pub content : Option CellResult

pub record ScenarioEntry : Type 0 where
  pub is_dir : Bool
  pub files : Option (List ResultFile)

pub record RunEntry : Type 0 where
  pub is_dir : Bool
  pub is_run : Bool
  pub scenarios : Option (List ScenarioEntry)

pub data ResultsDir : Type 0 where
  missing unreadable : ResultsDir
  entries : (runs : List RunEntry) → ResultsDir

pub contains_key : String → List String → Bool
contains_key k [] = false
contains_key k (x ∷ xs) = str_eq k x || contains_key k xs

module _ (show : ℕ → String) where
  pub cell_key : ℕ → String → String → String
  cell_key run_idx scenario server = show run_idx +++ "/" +++ scenario +++ "/" +++ server

  -- The body of the inner loop on a file that could be parsed, and on one that could not.
  pub add_result : Option CellResult → List String → List String
  unfolding cell_is_final cell_key
  add_result none done = done
  add_result (some cr) done =
      if not (cell_is_final cr.status)
      then done
      else cell_key cr.run_idx cr.scenario_name cr.server_name ∷ done

  pub scan_files : List ResultFile → List String → List String
  unfolding add_result
  scan_files [] done = done
  scan_files (f ∷ files) done =
      scan_files files (if f.is_dir || not f.is_json then done else add_result f.content done)

  pub scan_listed : Option (List ResultFile) → List String → List String
  unfolding scan_files
  scan_listed none done = done
  scan_listed (some files) done = scan_files files done

  pub scan_scenarios : List ScenarioEntry → List String → List String
  unfolding scan_listed
  scan_scenarios [] done = done
  scan_scenarios (sc ∷ scs) done =
      scan_scenarios scs (if not sc.is_dir then done else scan_listed sc.files done)

  pub scan_run : Option (List ScenarioEntry) → List String → List String
  unfolding scan_scenarios
  scan_run none done = done
  scan_run (some scs) done = scan_scenarios scs done

  -- The keys of the cells that are final, as the map of the code holds them.
  pub completed_cells : List RunEntry → List String → List String
  unfolding scan_run
  completed_cells [] done = done
  completed_cells (r ∷ runs) done =
      completed_cells runs
        (if not r.is_dir then done else if not r.is_run then done else scan_run r.scenarios done)

  module _ {S V : Type 0} (name_of : S → String) (server_name_of : V → String) where
    pub drop_done : List String → List (Cell S V) → List (Cell S V)
    unfolding contains_key
    drop_done done [] = []
    drop_done done (c ∷ cs) =
        let rest = drop_done done cs in
        if contains_key (cell_key c.run_idx (name_of c.scenario) (server_name_of c.server)) done
        then rest
        else c ∷ rest

    -- `none` is an error.
    pub drop_completed_cells : List (Cell S V) → ResultsDir → Option (List (Cell S V))
    unfolding completed_cells drop_done
    drop_completed_cells schedule missing = some schedule
    drop_completed_cells schedule unreadable = none
    drop_completed_cells schedule (entries runs) =
        some (drop_done (completed_cells runs []) schedule)

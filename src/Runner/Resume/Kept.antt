-- ===== src/Runner/Resume/Kept.antt =====
-- cmd/runner/resume.go: which cells a resumed run keeps.
use Prim.Native.String.{◌++◌ as ◌+++◌}
use text.Mathlib.Text.{◌==◌ as str_eq}
use text.Mathlib.TextEquality.{eq_iff}
use mathlib.Core.Path.{subst}
use probatorium.Base.{
  ℕ, if◌then◌else◌, ◌||◌, ◌&&◌, not, Bool, true, false, List, [], ◌∷◌, String, Option, none, some,
  ◌≡◌, refl, sym, ap, ◌∙◌, Bool-cases, inl, inr, arith,
}
use probatorium.Interleave.Schedule.{Cell}
use probatorium.Runner.Resume.{
  cell_is_final, CellResult, ResultFile, ScenarioEntry, RunEntry, entries, cell_key, add_result,
  scan_files, scan_listed, scan_scenarios, scan_run, completed_cells, contains_key, drop_done,
  drop_completed_cells,
}

module _ {ℓ} {A : Type ℓ} where
  abbrev pub any : (A → Bool) → List A → Bool
  any p [] = false
  any p (x ∷ xs) = p x || any p xs

  -- The items that do not pass the test, in their order.
  abbrev pub without : (A → Bool) → List A → List A
  without p [] = []
  without p (x ∷ xs) = if p x then without p xs else x ∷ without p xs

-- The statuses that end a cell: it ran, ran with a result in doubt, or cannot run; an empty one is
-- that of a result of before there was a status.
abbrev final_statuses : List String
final_statuses = "ok" ∷ "suspect" ∷ "not_applicable" ∷ "" ∷ []

abbrev ends : String → Bool
ends status = any (λ s. str_eq status s) final_statuses

cell_is_final-ends : (status : String) → cell_is_final status ≡ ends status
unfolding cell_is_final
cell_is_final-ends status = elim (Bool-cases (str_eq status "dnf")) [
  | inl h ↦ subst (λ s. cell_is_final s ≡ ends s) (sym ((eq_iff status "dnf").0 h)) refl
  | inr h ↦ ground (arith, h)
]

-- What names a cell: its run, its scenario and its server, with slashes between.
abbrev path_of : (ℕ → String) → ℕ → String → String → String
path_of show run scenario server = show run +++ "/" +++ scenario +++ "/" +++ server

module _ (show : ℕ → String) (k : String) where
  -- A parsed result names the cell and has a status that ends it, in a .json file of a directory in
  -- a run directory.
  abbrev in_result : Option CellResult → Bool
  in_result none = false
  in_result (some cr) =
      ends cr.status && str_eq k (path_of show cr.run_idx cr.scenario_name cr.server_name)

  abbrev in_file : ResultFile → Bool
  in_file f = not f.is_dir && f.is_json && in_result f.content

  abbrev in_listed : Option (List ResultFile) → Bool
  in_listed none = false
  in_listed (some files) = any in_file files

  abbrev in_scenario : ScenarioEntry → Bool
  in_scenario sc = sc.is_dir && in_listed sc.files

  abbrev in_scenarios : Option (List ScenarioEntry) → Bool
  in_scenarios none = false
  in_scenarios (some scs) = any in_scenario scs

  abbrev pub is_recorded : List RunEntry → Bool
  is_recorded runs = any (λ r. r.is_dir && r.is_run && in_scenarios r.scenarios) runs

  contains-add_result :
      (o : Option CellResult) (done : List String)
      → contains_key k (add_result show o done) ≡ in_result o || contains_key k done
  unfolding add_result contains_key cell_key
  contains-add_result none done = refl
  contains-add_result (some cr) done =
      let same = cell_is_final-ends cr.status in
      elim (Bool-cases (cell_is_final cr.status)) [
        | inl h ↦ rw (h, sym same ∙ h) refl
        | inr h ↦ rw (h, sym same ∙ h) refl
      ]

  contains-scan_files :
      (files : List ResultFile) (done : List String)
      → contains_key k (scan_files show files done) ≡ any in_file files || contains_key k done
  unfolding scan_files
  contains-scan_files [] done = refl
  contains-scan_files (f ∷ files) done =
      let added = contains-add_result f.content done in
      let passed = contains-scan_files files done in
      let later = contains-scan_files files (add_result show f.content done) in
      ground (arith, added, passed, later)

  contains-scan_listed :
      (o : Option (List ResultFile)) (done : List String)
      → contains_key k (scan_listed show o done) ≡ in_listed o || contains_key k done
  unfolding scan_listed
  contains-scan_listed none done = refl
  contains-scan_listed (some files) done = contains-scan_files files done

  contains-scan_scenarios :
      (scs : List ScenarioEntry) (done : List String)
      → contains_key k (scan_scenarios show scs done) ≡ any in_scenario scs || contains_key k done
  unfolding scan_scenarios
  contains-scan_scenarios [] done = refl
  contains-scan_scenarios (sc ∷ scs) done =
      let added = contains-scan_listed sc.files done in
      let passed = contains-scan_scenarios scs done in
      let later = contains-scan_scenarios scs (scan_listed show sc.files done) in
      ground (arith, added, passed, later)

  contains-scan_run :
      (o : Option (List ScenarioEntry)) (done : List String)
      → contains_key k (scan_run show o done) ≡ in_scenarios o || contains_key k done
  unfolding scan_run
  contains-scan_run none done = refl
  contains-scan_run (some scs) done = contains-scan_scenarios scs done

  contains-completed_cells :
      (runs : List RunEntry) (done : List String)
      → contains_key k (completed_cells show runs done) ≡ is_recorded runs || contains_key k done
  unfolding completed_cells
  contains-completed_cells [] done = refl
  contains-completed_cells (r ∷ runs) done =
      let added = contains-scan_run r.scenarios done in
      let passed = contains-completed_cells runs done in
      let later = contains-completed_cells runs (scan_run show r.scenarios done) in
      ground (arith, added, passed, later)

module _ (show : ℕ → String) {S V : Type 0} (name_of : S → String)
    (server_name_of : V → String) where
  -- The tree holds a result of this cell that ends it.
  abbrev pub is_done : List RunEntry → Cell S V → Bool
  is_done runs c =
      is_recorded show (path_of show c.run_idx (name_of c.scenario) (server_name_of c.server)) runs

  drop_done-without :
      (runs : List RunEntry) (cs : List (Cell S V))
      → drop_done show name_of server_name_of (completed_cells show runs []) cs
        ≡ without (is_done runs) cs
  unfolding drop_done contains_key cell_key
  drop_done-without runs [] = refl
  drop_done-without runs (c ∷ cs) =
      let key = cell_key show c.run_idx (name_of c.scenario) (server_name_of c.server) in
      let same = contains-completed_cells show key runs [] in
      let rest = drop_done-without runs cs in
      elim (Bool-cases (is_done runs c)) [
        | inl h ↦
            let done : contains_key key (completed_cells show runs []) ≡ true =
              ground (arith, same, h) in
            rw h (rw done rest)
        | inr h ↦
            let open_ : contains_key key (completed_cells show runs []) ≡ false =
              ground (arith, same, h) in
            rw h (rw open_ (ap (λ ys. c ∷ ys) rest))
      ]

  -- A resumed run keeps, in the order of the schedule, exactly the cells that no result in the tree
  -- ends: none that parses, in a .json file in the directories of the layout, which has the same
  -- text of run, scenario and server, with slashes between, as the cell, and the status "ok",
  -- "suspect", "not_applicable" or "". So a cell whose results are dnf, of another status or
  -- unreadable is run again.
  pub drop_completed_cells-without :
      (schedule : List (Cell S V)) (runs : List RunEntry)
      → drop_completed_cells show name_of server_name_of schedule (entries runs)
        ≡ some (without (is_done runs) schedule)
  unfolding drop_completed_cells
  drop_completed_cells-without schedule runs = ap some (drop_done-without runs schedule)

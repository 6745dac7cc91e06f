-- ===== src/Interleave/Plan/Planned.antt =====
-- interleave/archplan.go: what the columns of a plan say is to be run, in which order.
use probatorium.Base.{
  ◌≡◌, refl, ◌∙◌, ap, if◌then◌else◌, Bool, true, false, List, [], ◌∷◌, ◌++◌, map, reverse, String,
}
use mathlib.Core.List.{map-append}
use mathlib.Core.Path.{ap₂}
use probatorium.Interleave.Plan.{
  PlanCell, PlanColumn, ArchPlan, WalkCell, ordered, ordered_cells, ordered_columns, column_cells,
  columns_cells, walk_cells,
}

module _ {A : Type 0} (f : String → PlanCell → A) where
  abbrev planned_in : Bool → List PlanColumn → List A
  planned_in reversed [] = []
  planned_in reversed (c ∷ cs) =
      map (f c.name) (if reversed then reverse c.cells else c.cells) ++ planned_in reversed cs

  -- What `f` says of each cell of the plan: its columns, from the back where it reverses them, and
  -- of each all the cells, from the back where it reverses those.
  abbrev pub planned : ArchPlan → List A
  planned a =
      planned_in a.reverse_cells (if a.reverse_columns then reverse a.columns else a.columns)

  abbrev of_cell : WalkCell → A
  of_cell c = f c.col c.cell

  column_cells-planned :
      (name : String) (first : Bool) (xs : List PlanCell)
      → map of_cell (column_cells name first xs) ≡ map (f name) xs
  unfolding column_cells
  column_cells-planned name first [] = refl
  column_cells-planned name first (x ∷ xs) =
      ap (λ ys. f name x ∷ ys) (column_cells-planned name false xs)

  columns_cells-planned :
      (reversed : Bool) (cs : List PlanColumn)
      → map of_cell (columns_cells reversed cs) ≡ planned_in reversed cs
  unfolding columns_cells ordered_cells ordered
  columns_cells-planned reversed [] = refl
  columns_cells-planned reversed (c ∷ cs) =
      map-append of_cell (column_cells c.name true (ordered_cells c reversed)) _
      ∙ ap₂ (λ xs ys. xs ++ ys) (column_cells-planned c.name true (ordered_cells c reversed))
          (columns_cells-planned reversed cs)

  pub walk_cells-planned : (a : ArchPlan) → map (λ c. f c.col c.cell) (walk_cells a) ≡ planned a
  unfolding walk_cells ordered_columns ordered
  walk_cells-planned a = columns_cells-planned a.reverse_cells (ordered_columns a)

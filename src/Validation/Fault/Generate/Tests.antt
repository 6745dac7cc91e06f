-- ===== src/Validation/Fault/Generate/Tests.antt =====
-- validation/fault/scheduler.go: a schedule drawn from a source that counts.
use Prim.Native.Nat.{◌*◌}
use probatorium.Base.{
  ℕ, suc, ◌-◌, ◌<◌, ◌≤◌, min, List, [], ◌∷◌, Option, none, some, pos, map, count, ◌≡◌, refl, arith,
  true, IsSort, Sorted, insertion_sort, insertion_sort-IsSort,
}
use probatorium.Validation.Fault.Generate.{
  ScheduledFault, GenerateConfig, generate, rounds, start_of,
}
use probatorium.Validation.Fault.Generate.Window.{IsPlanned, by_offset, rounds-IsPlanned}

abbrev counting : ℕ → ℕ → ℕ × ℕ
counting n r = (min (r * 1000000000) (n - 1), suc r)

counting-lt : (n r : ℕ) → 0 < n → (counting n r).0 < n
counting-lt n r h = omega arith

abbrev same : ℕ → ℕ
same r = r

-- A run of 18 minutes: three faults are aimed at.
abbrev config : GenerateConfig
config = record {
  seed = 1;
  run_duration = pos 1080000000000;
  min_spacing = pos 0;
  celeris_pid = 41;
  celeris_listen_fd = 0;
  celeris_listen_port = 8080;
  loadgen_iface = "";
}

abbrev sort : List ScheduledFault → List ScheduledFault
sort = insertion_sort by_offset

sort-IsSort : IsSort by_offset sort
sort-IsSort = insertion_sort-IsSort by_offset (λ f g h. ground arith) (λ f g k h l. ground arith)

abbrev offsets : Option (List ScheduledFault) → Option (List ℕ)
offsets none = none
offsets (some fs) = some (map (λ f. f.offset) fs)

-- The starts are a few seconds apart: the spacing of 30 seconds keeps the ends of the run free, not
-- the time between two faults.
three_faults :
    offsets (generate counting same sort 3 config)
    ≡ some (34000000000 ∷ 38000000000 ∷ 42000000000 ∷ [])
unfolding generate insertion_sort
three_faults = refl

two_rounds : generate counting same sort 2 config ≡ none
unfolding generate insertion_sort
two_rounds = refl

rounds-IsPlanned_example :
    let sched = sort (rounds counting config 3 (start_of counting same sort config)).sched in
    Sorted by_offset sched × IsPlanned config sched × (count (λ f. true) sched ≤ 12)
rounds-IsPlanned_example = rounds-IsPlanned config counting counting-lt same sort sort-IsSort 3

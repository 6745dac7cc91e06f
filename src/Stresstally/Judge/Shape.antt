-- ===== src/Stresstally/Judge/Shape.antt =====
-- Whether a shard's log is of the asked-for experiment, and of one complete observation. The
-- quoting of a text and the test for a decimal fraction are parameters.
use text.Mathlib.Text.{◌==◌ as str_eq, starts_with}
use Prim.Native.String.{◌++◌ as ◌+++◌}
use probatorium.Base.{
  Fields, lookup, at_key, ℕ, if◌then◌else◌, ◌||◌, ◌&&◌, not, Bool, true, false, List, [], ◌∷◌, ◌++◌,
  String, Option, none, some, itoa, join, length, ◌≡◌,
}
use probatorium.Stresstally.Judge.{Case, ShardLog}

abbrev pub reason_no_header : String
reason_no_header = "no-header"

abbrev pub reason_shape : String
reason_shape = "shape-mismatch"

abbrev pub reason_observation : String
reason_observation = "observation"

abbrev pub memlocks : Fields
memlocks = ("8m", "8388608") ∷ ("128m", "134217728") ∷ ("unlimited", "unlimited") ∷ []

abbrev pub cluster_hosts : Fields
cluster_hosts = ("x86", "msa2-server") ∷ ("arm64", "msr1") ∷ []

abbrev pub machines : Fields
machines = ("x86", "x86_64") ∷ ("arm64", "aarch64") ∷ []

pub format_bool : Bool → String
format_bool true = "true"
format_bool false = "false"

unfoldable pub is_reason : String → String → Bool
is_reason r x = str_eq x r || starts_with x (r +++ ":")

unfoldable pub has_reason : List String → String → Bool
unfolding is_reason
has_reason [] r = false
has_reason (x ∷ xs) r = is_reason r x || has_reason xs r

-- `sl.refused != "" || sl.exit == "refused"`.
unfoldable pub is_refused : ShardLog → Bool
is_refused sl = not (str_eq sl.refused "") || str_eq sl.exit "refused"

-- What the header has to say, in the order in which it is compared.
unfoldable pub wanted : Case → String → ℕ → String → Fields
unfolding at_key format_bool
wanted c arch shard celeris_sha =
    let limit = at_key memlocks c.memlock in
    (("case", c.name)
      ∷ ("arch", arch)
      ∷ ("shard", itoa shard)
      ∷ ("memlock_in_force", limit +++ ":" +++ limit)
      ∷ ("count", itoa c.count)
      ∷ ("race", format_bool c.race)
      ∷ ("timeout", c.timeout)
      ∷ ("run", c.run)
      ∷ ("packages", join " " c.packages)
      ∷ ("flags", join " " c.flags)
      ∷ ("env", join " " c.env)
      ∷ ("machine", at_key machines arch)
      ∷ [])
    ++ (if not (str_eq celeris_sha "") then ("celeris_sha", celeris_sha) ∷ [] else [])
    ++ (if not (str_eq c.shuffle "") then ("shuffle", c.shuffle) ∷ [] else [])
    ++ (if str_eq c.target "cluster"
        then ("target", "cluster") ∷ ("host", at_key cluster_hosts arch) ∷ []
        else [])
    ++ (if str_eq c.mode "timing"
        then ("mode", "timing") ∷ ("cpus_asked", itoa c.cpus) ∷ ("pmu_asked", c.pmu) ∷ []
        else [])

-- Is a header's value the wanted one?
unfoldable pub agrees : Option String → String → Bool
agrees none value = false
agrees (some got) value = str_eq got value

got_or_empty : Option String → String
got_or_empty none = ""
got_or_empty (some got) = got

-- The log's header has the value wanted under a key.
abbrev pub Agrees : Fields → String × String → Type 0
Agrees h w = lookup h w.0 ≡ some w.1

module _ (quote : String → String) where
  unfoldable pub compare_fields : Fields → Fields → List String
  unfolding agrees got_or_empty
  compare_fields h [] = []
  compare_fields h (w ∷ ws) =
      let rest = compare_fields h ws in
      if agrees (lookup h w.0) w.1
      then rest
      else (w.0 +++ " is " +++ quote (got_or_empty (lookup h w.0)) +++ ", want " +++ quote w.1)
        ∷ rest

  unfoldable pub check_shape : Fields → Case → String → ℕ → String → List String
  unfolding compare_fields wanted
  check_shape h c arch shard celeris_sha = compare_fields h (wanted c arch shard celeris_sha)

missing_key : Fields → String → List String
unfolding at_key
missing_key o key =
    if str_eq (at_key o key) "" then (reason_observation +++ ": no " +++ key) ∷ [] else []

module _ (is_float : String → Bool) where
  observation_fields : Case → Fields → List String
  unfolding missing_key
  observation_fields c o =
      missing_key o "wall_ns"
      ++ missing_key o "binary_sha256"
      ++ missing_key o "exit"
      ++ (if str_eq c.pmu "required" && not (is_float (at_key o "instructions_u"))
          then (reason_observation
              +++ ": pmu required but no instructions_u (perf="
              +++ at_key o "perf"
              +++ ")")
            ∷ []
          else [])

  pub count_observations : Case → List Fields → List String
  unfolding observation_fields
  count_observations c (o ∷ []) = observation_fields c o
  count_observations c obs =
      (reason_observation
        +++ ": "
        +++ itoa (length obs)
        +++ " stress-obs line(s), want exactly 1: the test binary did not run exactly once")
      ∷ []

  unfoldable pub observation_reasons : Case → ShardLog → List String
  unfolding is_refused count_observations
  observation_reasons c sl =
      if not (str_eq c.mode "timing") || is_refused sl then [] else count_observations c sl.obs

-- ===== src/Stresstally/Parse/Clean.antt =====
-- What a log without a reason shows: each run has its verdict, nothing crashed, and the exit status
-- of go test says what the verdicts say.
use text.Mathlib.Text.{◌==◌ as str_eq}
use text.Mathlib.TextEquality.{eq_iff}
use mathlib.Core.Path.{subst}
use Prim.Native.String.{◌++◌ as ◌+++◌}
use probatorium.Base.{
  differs, ℕ, ◌==◌, ◌<◌, ℤ, pos, negsuc, atoi, itoa, itoa_ℤ, pos_part, ◌&&◌, ◌||◌, Bool, true,
  false, List, String, Option, none, some, ◌≡◌, ◌≢◌, ◌↔◌, refl, arith, is_nil, Bool-cases,
  Option-cases, inl, inr, ap, ◌∙◌, sym,
}
use probatorium.Stresstally.Judge.{ShardLog}
use probatorium.Stresstally.Judge.Shape.{reason_no_header}
use probatorium.Stresstally.Parse.{
  Patterns, reason_unreadable, reason_unterminated, reason_no_verdicts, reason_no_trailer,
  reason_refused, reason_exit_mismatch,
}
use probatorium.Stresstally.Parse.Scan.{Scan, start_scan, with_reason, end_panic}
use probatorium.Stresstally.Parse.Scan.Lines.{scan_lines}
use probatorium.Stresstally.Parse.Shard.{
  note_error, is_complete, with_log_reason, failing, check_status, check_exit, check_refused,
  check_verdicts, close_package, close_failures, read_trailer, finish, parse_shard,
}
use probatorium.Stresstally.Parse.Closing.{ended, closing}
use probatorium.Stresstally.Parse.Trouble.{is_nil-add_reason, flush-Free, not_Free}

pub is_nil-with_log_reason :
    (r d : String) (log : ShardLog) → is_nil (with_log_reason r d log).reasons ≡ false
unfolding with_log_reason
is_nil-with_log_reason r d log = is_nil-add_reason r d log.reasons

check_status-Agrees :
    (code : ℤ) (log : ShardLog)
    → is_nil (check_status (some code) log).reasons ≡ true
    → (is_nil log.reasons ≡ true) × ((code ≡ pos 0) ↔ (failing log ≡ 0))
unfolding check_status
check_status-Agrees (pos n) log h =
    let a =
      is_nil-with_log_reason reason_exit_mismatch
        ("exit 0 with " +++ itoa (failing log) +++ " FAIL verdict(s)") log in
    let b =
      is_nil-with_log_reason reason_exit_mismatch
        ("exit " +++ itoa_ℤ (pos n) +++ " without a FAIL verdict") log in
    (
      ground (arith, a, b, h),
      (
        λ e. let z = ap pos_part e in ground (arith, a, b, h, z),
        λ z. let e : n ≡ 0 = ground (arith, a, b, h, z) in ap pos e,
      ),
    )
check_status-Agrees (negsuc n) log h =
    let b =
      is_nil-with_log_reason reason_exit_mismatch
        ("exit " +++ itoa_ℤ (negsuc n) +++ " without a FAIL verdict") log in
    (ground (arith, b, h), (λ e. cc, λ z. ground (arith, b, h, z)))

-- The exit status is a number, and zero just where no verdict is FAIL.
abbrev pub Agrees : ShardLog → Type 0
Agrees log = (code : ℤ) × (atoi log.exit ≡ some code) × ((code ≡ pos 0) ↔ (failing log ≡ 0))

check_status-Free :
    (code : Option ℤ) (log : ShardLog)
    → is_nil (check_status code log).reasons ≡ true
    → check_status code log ≡ log
unfolding check_status
check_status-Free none log h =
    let a =
      is_nil-with_log_reason reason_exit_mismatch ("unreadable exit status " +++ log.exit) log in
    absurd (ground (arith, h, a))
check_status-Free (some code) log h =
    let a =
      is_nil-with_log_reason reason_exit_mismatch
        ("exit 0 with " +++ itoa (failing log) +++ " FAIL verdict(s)") log in
    let b =
      is_nil-with_log_reason reason_exit_mismatch
        ("exit " +++ itoa_ℤ code +++ " without a FAIL verdict") log in
    ground (arith, a, b, h)

check_exit-Free : (log : ShardLog) → is_nil (check_exit log).reasons ≡ true → check_exit log ≡ log
unfolding check_exit
check_exit-Free log h = elim (Bool-cases (str_eq log.exit "" || str_eq log.exit "refused")) [
  | inl e ↦ rw (e, check_exit) refl
  | inr e ↦
      let k : is_nil (check_status (atoi log.exit) log).reasons ≡ true = ground (arith, h, e) in
      rw (e, check_exit) (check_status-Free (atoi log.exit) log k)
]

check_exit-Agrees :
    (log : ShardLog)
    → is_nil (check_exit log).reasons ≡ true
    → log.exit ≢ ""
    → log.exit ≢ "refused"
    → Agrees log
unfolding check_exit check_status
check_exit-Agrees log h filled running =
    let f = differs log.exit "" filled in
    let r = differs log.exit "refused" running in
    elim (Option-cases (atoi log.exit)) [
      | inl e ↦
          let a =
            is_nil-with_log_reason reason_exit_mismatch ("unreadable exit status " +++ log.exit)
              log in
          absurd (ground (arith, h, e, a, f, r))
      | inr (code, e) ↦
          let k : is_nil (check_status (some code) log).reasons ≡ true =
            ground (arith, h, e, f, r) in
          (code, e, (check_status-Agrees code log k).1)
    ]

check_verdicts-Free :
    (n : ℕ) (log : ShardLog)
    → is_nil (check_verdicts n log).reasons ≡ true
    → (check_verdicts n log ≡ log) × ((n == 0 && str_eq log.refused "") ≡ false)
unfolding check_verdicts
check_verdicts-Free n log h =
    let a = is_nil-with_log_reason reason_no_verdicts "" log in
    (ground (arith, a, h), ground (arith, a, h))

check_refused-Free :
    (log : ShardLog)
    → is_nil (check_refused log).reasons ≡ true
    → (check_refused log ≡ log)
      × (str_eq log.exit "refused" ≡ false)
      × (str_eq log.refused "" ≡ true)
unfolding check_refused
check_refused-Free log h =
    let a = is_nil-with_log_reason reason_refused log.refused log in
    (ground (arith, a, h), ground (arith, a, h), ground (arith, a, h))

module _ (p : Patterns) where
  read_trailer-Free :
      (line : String) (log : ShardLog)
      → is_nil (read_trailer p line log).reasons ≡ true
      → (e : String × String) × (p.trailer_re line ≡ some e)
        × (read_trailer p line log ≡ record log { exit = e.0; elapsed = e.1 })
  unfolding read_trailer
  read_trailer-Free line log h = elim (Option-cases (p.trailer_re line)) [
    | inl e ↦
        let a = is_nil-with_log_reason reason_no_trailer "" log in absurd (ground (arith, h, e, a))
    | inr ((exit, elapsed), e) ↦ ((exit, elapsed), e, rw (e, read_trailer) refl)
  ]

  note_error-header :
      (read_error : Option String) (s : Scan)
      → is_complete (note_error read_error s).header_state ≡ true
      → is_complete s.header_state ≡ true
  unfolding note_error with_reason
  note_error-header none s h = h
  note_error-header (some e) s h = h

  -- Before the end: nothing was left pending, the reader gave no error, the header was complete.
  pub close_package-Free :
      (s : Scan) → is_nil (close_package p s).log.reasons ≡ true → is_nil s.log.reasons ≡ true
  unfolding close_package
  close_package-Free s h = elim (Bool-cases (is_nil s.pending && is_nil s.pending_runs)) [
    | inl e ↦ ground (arith, h, e)
    | inr e ↦
        let k = flush-Free p "(no package result)" (with_reason reason_unterminated "" s) in
        let a = not_Free reason_unterminated "" s in absurd (ground (arith, h, e, k, a))
  ]

  note_error-Free :
      (read_error : Option String) (s : Scan)
      → is_nil (note_error read_error s).log.reasons ≡ true
      → (read_error ≡ none) × (is_nil s.log.reasons ≡ true)
  unfolding note_error
  note_error-Free none s h = (refl, h)
  note_error-Free (some e) s h =
      let a = not_Free reason_unreadable e s in absurd (ground (arith, a, h))

  pub ended-Free :
      (ls : List String) (read_error : Option String)
      → is_nil (ended p ls read_error).log.reasons ≡ true
      → (read_error ≡ none)
        × (is_complete (scan_lines p ls start_scan).header_state ≡ true)
        × (is_nil (scan_lines p ls start_scan).log.reasons ≡ true)
  unfolding ended
  ended-Free ls read_error h =
      let s = note_error read_error (scan_lines p ls start_scan) in
      elim (Bool-cases (is_complete s.header_state)) [
        | inl e ↦
            let (fine, free) =
              note_error-Free read_error (scan_lines p ls start_scan) (ground (arith, h, e)) in
            (fine, note_error-header read_error (scan_lines p ls start_scan) e, free)
        | inr e ↦ let a = not_Free reason_no_header "" s in absurd (ground (arith, a, h, e))
      ]

  -- The end of a log that gives no reason, from the state of the last flush.
  pub record Ending (s : Scan) (log : ShardLog) : Type 0 where
    pub status : String × String
    pub trailer : p.trailer_re s.last_non_empty ≡ some status
    pub exit : log.exit ≡ status.0
    pub running : log.exit ≢ "refused"
    pub not_refused : log.refused ≡ ""
    pub verdicts : 0 < s.verdicts
    pub free : is_nil s.log.reasons ≡ true
    pub agrees : log.exit ≢ "" → Agrees log

  pub parse_shard-Ending :
      (chunks : List (String × Bool)) (read_error : Option String)
      → is_nil (parse_shard p chunks read_error).reasons ≡ true
      → Ending (closing p chunks read_error) (parse_shard p chunks read_error)
  unfolding parse_shard finish closing ended close_failures end_panic
  parse_shard-Ending chunks read_error h =
      let s = closing p chunks read_error in
      let t = close_failures p s in
      let a = read_trailer p t.last_non_empty t.log in
      let b = check_refused a in
      let c = check_verdicts t.verdicts b in
      let d_same : check_exit c ≡ c = check_exit-Free c h in
      let c_free : is_nil c.reasons ≡ true = ap (λ x. is_nil x.reasons) (sym d_same) ∙ h in
      let (c_same, some_verdict) = check_verdicts-Free t.verdicts b c_free in
      let b_free : is_nil b.reasons ≡ true = ap (λ x. is_nil x.reasons) (sym c_same) ∙ c_free in
      let (b_same, running, refused) = check_refused-Free a b_free in
      let a_free : is_nil a.reasons ≡ true = ap (λ x. is_nil x.reasons) (sym b_same) ∙ b_free in
      let (e, matched, a_same) = read_trailer-Free t.last_non_empty t.log a_free in
      let all = d_same ∙ c_same ∙ b_same in
      let exit_eq : (parse_shard p chunks read_error).exit ≡ e.0 =
        ap (λ x. x.exit) (all ∙ a_same) in
      let exit_a : (parse_shard p chunks read_error).exit ≡ a.exit = ap (λ x. x.exit) all in
      let refused_a : (parse_shard p chunks read_error).refused ≡ a.refused =
        ap (λ x. x.refused) all in
      record {
        status = e;
        trailer = matched;
        exit = exit_eq;
        running =
            λ k. let z = (eq_iff a.exit "refused").1 (sym exit_a ∙ k) in ground (arith, z, running);
        not_refused = refused_a ∙ (eq_iff a.refused "").0 refused;
        verdicts =
            let k : str_eq b.refused "" ≡ true = ap (λ x. str_eq x.refused "") b_same ∙ refused in
            ground (arith, some_verdict, k);
        free = ap (λ x. is_nil x.reasons) (sym a_same) ∙ a_free;
        agrees = λ filled. subst Agrees (sym d_same) (
            check_exit-Agrees c h (λ k. filled (ap (λ x. x.exit) d_same ∙ k))
              (λ k.
                let z =
                  (eq_iff a.exit "refused").1 (ap (λ x. x.exit) (sym (c_same ∙ b_same)) ∙ k) in
                ground (arith, z, running)));
      }

-- ===== src/CommandManager/Timeouts.antt =====
-- `command_manager_check_timeouts`: what one sweep reports, and that repeated sweeps end every wait.
use smart_gateway.Prelude.{
  ℕ, zero, suc, ◌+◌, ◌≤◌, ◌≡◌, ◌∙◌, refl, sym, ap, arith, Bool, ◌&&◌, ltb, leb, if◌then◌else◌, List,
  [], ◌∷◌, ◌++◌, map, Option, some, length, length-append, take, take-length_append, append-nil,
  append_assoc,
}
use smart_gateway.Prelude.Int.{pos}
use smart_gateway.CommandManager.{
  Entry, Manager, Retry, Limits, Sweep, no_sweep, is_waiting, sweep_entry, sweep_entries,
  command_manager_check_timeouts,
}

abbrev pub limits : ℕ → ℕ → ℕ → Option ℕ → Option ℕ → Limits
limits now t r rc tc = record {
  now = now;
  timeout_sec = t;
  max_retries = r;
  retry_capacity = rc;
  timeout_capacity = tc;
}

-- What the sweep makes of an entry does not depend on what it has reported so far.
abbrev pub swept : Limits → Entry → Entry
swept l e = (sweep_entry l e no_sweep).0

sweep_entry-swept : (l : Limits) (e : Entry) (s : Sweep) → (sweep_entry l e s).0 ≡ swept l e
unfolding sweep_entry
sweep_entry-swept l e s = ground arith

pub sweep_entries-map :
    (l : Limits) (es : List Entry) (s : Sweep) → (sweep_entries l es s).0 ≡ map (swept l) es
unfolding sweep_entries
sweep_entries-map l [] s = refl
sweep_entries-map l (e ∷ es) s =
    rw (sweep_entry-swept l e s, sweep_entries-map l es (sweep_entry l e s).1)

-- An entry whose wait has run out, and whether it may be sent again.
pub is_due : Limits → Entry → Bool
is_due l e = is_waiting e && leb (e.sent_time + l.timeout_sec) l.now

pub may_retry : Limits → Entry → Bool
may_retry l e = is_due l e && ltb e.retries l.max_retries

pub must_fail : Limits → Entry → Bool
must_fail l e = is_due l e && leb l.max_retries e.retries

-- The records for the entries that pass a test, in the order of the slots.
pub collect {ℓ} : {A : Type ℓ} → (Entry → Bool) → (Entry → A) → List Entry → List A
collect test f [] = []
collect test f (e ∷ es) = if test e then f e ∷ collect test f es else collect test f es

abbrev pub retry_of : Entry → Retry
retry_of e = record { sequence = e.sequence; target_node = e.target_node; fields = e.fields }

take_full {ℓ} : {A : Type ℓ} (c : ℕ) (r xs : List A) → length r ≡ c → take c (r ++ xs) ≡ r
take_full c r xs e = rw (← e) (take-length_append r xs)

take_all {ℓ} : {A : Type ℓ} (c : ℕ) (r : List A) → length r ≤ c → take c r ≡ r
take_all zero [] h = refl
take_all (suc c) [] h = refl
take_all zero (x ∷ r) h = absurd (omega arith)
take_all (suc c) (x ∷ r) h = ap (λ t. x ∷ t) (take_all c r (omega arith))

-- The report so far, against the capacities of the two arrays.
record Fits (c d : ℕ) (s : Sweep) : Type 0 where
  retries_counted : s.retry_count ≡ length s.retried
  retries_fit : s.retry_count ≤ c
  timeouts_counted : s.timeout_count ≡ length s.timed_out
  timeouts_fit : s.timeout_count ≤ d

module _ (l : Limits) (c d : ℕ) (rc : l.retry_capacity ≡ some c)
    (tc : l.timeout_capacity ≡ some d) where
  sweep_entry-Fits : (e : Entry) (s : Sweep) → Fits c d s → Fits c d (sweep_entry l e s).1
  unfolding sweep_entry
  sweep_entry-Fits e s f = ground (
    arith,
    length-append s.retried (retry_of e ∷ []),
    length-append s.timed_out (e.sequence ∷ []),
  )

  sweep_entry-retried :
      (e : Entry) (s : Sweep) (rest : List Retry)
      → Fits c d s
      → take c ((sweep_entry l e s).1.retried ++ rest)
        ≡ take c (s.retried ++ (if may_retry l e then retry_of e ∷ rest else rest))
  unfolding sweep_entry may_retry is_due
  sweep_entry-retried e s rest f = ground (
    arith,
    append_assoc s.retried (retry_of e ∷ []) rest,
    take_full c s.retried rest,
    take_full c s.retried (retry_of e ∷ rest),
  )

  sweep_entry-timed_out :
      (e : Entry) (s : Sweep) (rest : List ℕ)
      → Fits c d s
      → take d ((sweep_entry l e s).1.timed_out ++ rest)
        ≡ take d (s.timed_out ++ (if must_fail l e then e.sequence ∷ rest else rest))
  unfolding sweep_entry must_fail is_due
  sweep_entry-timed_out e s rest f = ground (
    arith,
    append_assoc s.timed_out (e.sequence ∷ []) rest,
    take_full d s.timed_out rest,
    take_full d s.timed_out (e.sequence ∷ rest),
  )

  sweep_entries-Fits :
      (es : List Entry) (s : Sweep) → Fits c d s → Fits c d (sweep_entries l es s).1
  unfolding sweep_entries
  sweep_entries-Fits [] s f = f
  sweep_entries-Fits (e ∷ es) s f =
      sweep_entries-Fits es (sweep_entry l e s).1 (sweep_entry-Fits e s f)

  sweep_entries-retried :
      (es : List Entry) (s : Sweep)
      → Fits c d s
      → (sweep_entries l es s).1.retried ≡ take c (s.retried ++ collect (may_retry l) retry_of es)
  unfolding sweep_entries collect
  sweep_entries-retried [] s f =
      rw append-nil (sym (take_all c s.retried (omega (arith, f.retries_counted, f.retries_fit))))
  sweep_entries-retried (e ∷ es) s f =
      sweep_entries-retried es (sweep_entry l e s).1 (sweep_entry-Fits e s f)
      ∙ sweep_entry-retried e s (collect (may_retry l) retry_of es) f

  sweep_entries-timed_out :
      (es : List Entry) (s : Sweep)
      → Fits c d s
      → (sweep_entries l es s).1.timed_out
        ≡ take d (s.timed_out ++ collect (must_fail l) (λ e. e.sequence) es)
  unfolding sweep_entries collect
  sweep_entries-timed_out [] s f =
      rw append-nil
        (sym (take_all d s.timed_out (omega (arith, f.timeouts_counted, f.timeouts_fit))))
  sweep_entries-timed_out (e ∷ es) s f =
      sweep_entries-timed_out es (sweep_entry l e s).1 (sweep_entry-Fits e s f)
      ∙ sweep_entry-timed_out e s (collect (must_fail l) (λ e. e.sequence) es) f

-- A sweep that is given both arrays reports, in the order of the slots and as far as each array
-- reaches, the due commands with a retry left and the numbers of those without; each count is the
-- number of records written, and no more than the array holds.
pub check_report :
    (m : Manager) (now t r c d : ℕ)
    → let l = limits now t r (some c) (some d) in
      (s : Sweep) × ((command_manager_check_timeouts m now (pos t) (pos r) (some c) (some d)).0
        ≡ some s)
      × (s.retried ≡ take c (collect (may_retry l) retry_of m.entries))
      × (s.retry_count ≡ length s.retried)
      × (s.retry_count ≤ c)
      × (s.timed_out ≡ take d (collect (must_fail l) (λ e. e.sequence) m.entries))
      × (s.timeout_count ≡ length s.timed_out)
      × (s.timeout_count ≤ d)
unfolding command_manager_check_timeouts
check_report m now t r c d =
    let f = sweep_entries-Fits l c d refl refl m.entries no_sweep fresh in
    (
      (sweep_entries l m.entries no_sweep).1,
      refl,
      sweep_entries-retried l c d refl refl m.entries no_sweep fresh,
      f.retries_counted,
      f.retries_fit,
      sweep_entries-timed_out l c d refl refl m.entries no_sweep fresh,
      f.timeouts_counted,
      f.timeouts_fit,
    )
  where
    l : Limits
    l = limits now t r (some c) (some d)

    fresh : Fits c d no_sweep
    fresh = omega arith

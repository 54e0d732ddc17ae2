-- ===== src/Examples/ReapRuns.antt =====
-- A ledger with an orphan, a provider that fails once, and what src/run_farm/reap.py does with them.
use run_farm.Prelude.{
  ℕ, zero, suc, ◌+◌, ◌≡◌, refl, String, true, false, ◌⊎◌, inr, none, some, List, [], ◌∷◌, has,
  string_eq, lookup, sorted, insert,
}
use run_farm.Ledger.{Line, row, garbled, rows, record_row}
use run_farm.Budget.{spent, capped_rent, budget_exceeded}
use run_farm.Budget.Cap.{Burns}
use run_farm.Reap.Leaks.{
  no_row, rent_rows, rent_rows_of, leaked_ids, members, of_list, minus, scan, close_ledger_rows,
  close_rows, closing_row,
}
use run_farm.Reap.Destroy.{
  Instance, Attempt, done, raised, Provider, Texts, Destroyed, destroyed, nothing_swept, note,
  decisive, classify, destroy_with_retry, destroy_all,
}
use run_farm.Reap.Select.{targets}
use run_farm.Reap.{Options, reap, keep_past_grace, vanished, killed_ids, close, past_grace, prices}
use run_farm.Reap.Main.{Args, main}
use run_farm.Reap.Closed.{is_live, close-Burns}
use run_farm.Reap.Gates.{main-Unasked}
use run_farm.Reap.Retries.{Settled, Exhausted, destroy_with_retry_lem}
use run_farm.Reap.Accounts.{Accounts, reap-Accounts}

abbrev rented_at : String → ℕ → ℕ → Line
rented_at iid ts dph =
    row (record no_row { event = "rented"; instance_id = some iid; ts = some ts; dph = some dph })

-- Two rentals and a line that was cut off.
abbrev ledger : List Line
ledger = rented_at "7" 10 500 ∷ garbled "{\"ts\"" ∷ rented_at "8" 1000 300 ∷ []

abbrev texts : Texts
texts = record { lower = λ s. s; float = λ s. none; from_iso = λ s. none }

abbrev box : String → Instance
box iid = record { id = iid; dph = some 500; raw = [] }

-- The number of destroys so far; the first one of all is answered with a 503.
abbrev answer : ℕ → Attempt
answer zero = raised (record { code = some 503; is_bug = false; message = "busy" })
answer (suc n) = done

abbrev cloud : Provider ℕ
cloud = record { list_instances = λ p. (box "7" ∷ [], p); destroy = λ p iid. (answer p, p + 1) }

abbrev real_reap : Options
real_reap = record {
  scope = record { ledger = some ledger; label = none; older_than = none };
  dry_run = false;
  retries = 4;
  close_ledger = true;
}

-- The orphan in the listing is destroyed at the second try.
retry_run : destroy_with_retry texts cloud 4 0 "7" ≡ (destroyed, 2)
unfolding destroy_with_retry decisive classify
retry_run = refl

-- At the time 2000 the unseen rental "8" is past its grace, so both are closed.
reap_run : (reap texts cloud 0 real_reap (box "7" ∷ []) 2000 2000).report.closed ≡ "7" ∷ "8" ∷ []
unfolding reap close sorted members of_list destroy_all targets has lookup leaked_ids minus scan
    rows insert note destroy_with_retry decisive classify close_ledger_rows close_rows closing_row
    rent_rows rent_rows_of keep_past_grace vanished record_row
reap_run = refl

abbrev closed : List Line
closed = (close ledger (box "7" ∷ []) nothing_swept 1050).0

-- Within the grace of "8", and with "7" in the listing, both go on burning.
close-Burns_example :
    (Burns (rows closed) "8"
      → Burns (rows ledger) "8"
        × has "8" (killed_ids nothing_swept) ≡ false
        × (is_live "8" (box "7" ∷ []) ≡ true ⊎ past_grace 1050 (rent_rows ledger) "8" ≡ false))
    × (Burns (rows ledger) "8"
        → has "8" (killed_ids nothing_swept) ≡ false
        → is_live "8" (box "7" ∷ []) ≡ true ⊎ past_grace 1050 (rent_rows ledger) "8" ≡ false
        → Burns (rows closed) "8")
close-Burns_example = close-Burns ledger (box "7" ∷ []) nothing_swept 1050 "8"

-- A cap of 700000, which the two rentals pass within 1500 seconds.
abbrev next_box : ℕ → String × ℕ
next_box n = ("9", n + 1)

spent_by_1500 : spent (rows ledger) 1500 ≡ 895000
unfolding spent run_farm.Ledger.summary run_farm.Ledger.total rows run_farm.Budget.in_flight
    run_farm.Budget.burning run_farm.Budget.flight insert has lookup
spent_by_1500 = refl

destroy_with_retry_lem_example :
    ((k : ℕ) × (d : Destroyed) × Settled texts cloud 4 0 "7" k d) ⊎ Exhausted texts cloud 4 0 "7"
destroy_with_retry_lem_example = destroy_with_retry_lem texts cloud 4 0 "7"

reap-Accounts_example :
    (false ≡ false
      → Accounts
          (targets texts 2000 real_reap.scope (box "7" ∷ []))
          (reap texts cloud 0 real_reap (box "7" ∷ []) 2000 2000).report.swept
          (reap texts cloud 0 real_reap (box "7" ∷ []) 2000 2000).report.dph_reclaimed)
    × (false ≡ true
        → ((reap texts cloud 0 real_reap (box "7" ∷ []) 2000 2000).report.dph_reclaimed
            ≡ prices (targets texts 2000 real_reap.scope (box "7" ∷ [])))
          × ((reap texts cloud 0 real_reap (box "7" ∷ []) 2000 2000).provider ≡ 0)
          × ((reap texts cloud 0 real_reap (box "7" ∷ []) 2000 2000).ledger ≡ some ledger))
reap-Accounts_example = reap-Accounts texts cloud 0 real_reap (box "7" ∷ []) 2000 2000

-- `--label sweep --yes` alone.
abbrev label_only : Args
label_only = record {
  ledger = none;
  label = some "sweep";
  older_than = none;
  include_in_use = false;
  all_scope = false;
  yes = true;
  retries = 4;
}

main-Unasked_example :
    ((main texts (λ s. s) cloud 0 label_only 2000 2000).ledger ≡ none)
    × (((main texts (λ s. s) cloud 0 label_only 2000 2000).provider ≡ 0)
        ⊎ ((main texts (λ s. s) cloud 0 label_only 2000 2000).provider ≡ 0))
main-Unasked_example =
    main-Unasked texts (λ s. s) cloud 0 label_only 2000 2000 (inr (inr (refl, refl, refl, refl)))

-- ===== src/Admission/Tests.antt =====
-- Concrete charges against daily budgets.
use ovrly.Prelude.{ℕ, ◌≡◌, ◌≤◌, ◌+◌, refl, true, none, [], ◌∷◌, err, arith}
use ovrly.Jobs.Fixtures.{queued_row, running_row}
use ovrly.Admission.Quotas.{
  Texts, Config, Charge, Refusal, charge, provider_gate, active_checks, distinct,
}
use ovrly.Admission.Ledger.{charge_each, accepted, used_checks, used_bytes, charge_each-used}

abbrev texts : Texts
texts = record { json_text = λ v. "7"; uuid_text = λ n. "1"; python_str = λ o. "None" }

abbrev config : Config
config = record {
  quotas_enabled = true;
  quota_active_checks = 2;
  quota_daily_checks = 3;
  quota_daily_upload_bytes = 1000;
}

abbrev upload : ℕ → Charge
upload bytes = record {
  owner_id = 9;
  checks = 2;
  upload_bytes = bytes;
  investigation_id = none;
  jobs = queued_row ∷ [];
  sessions = [];
  checked_at = 100;
  now = 100;
  statuses = [];
}

-- The second upload would be the fourth check of the day.
fourth_check_refused :
    charge texts config
      (upload 10)
      (record { owner_id = 9; day = 0; checks = 2; upload_bytes = 400 } ∷ [])
    ≡ err (Refusal.daily_checks_exceeded 86400)
unfolding charge provider_gate active_checks distinct
fourth_check_refused = refl

-- Both rows of an investigation are one active check.
one_active_test : active_checks texts 9 100 (queued_row ∷ running_row ∷ []) [] ≡ "7" ∷ []
unfolding active_checks distinct
one_active_test = refl

charge_each-used_example :
    let final = charge_each texts config (upload 400 ∷ upload 10 ∷ []) [] in
    (used_checks 9 0 final
      ≡ 0 + accepted texts config (λ q. q.checks) 9 (upload 400 ∷ upload 10 ∷ []) [])
    × (used_bytes 9 0 final
        ≡ 0 + accepted texts config (λ q. q.upload_bytes) 9 (upload 400 ∷ upload 10 ∷ []) [])
    × (used_checks 9 0 final ≤ 3)
    × (used_bytes 9 0 final ≤ 1000)
charge_each-used_example =
    charge_each-used texts config (upload 400 ∷ upload 10 ∷ []) [] 9 0 refl (refl, (refl, tt))
      (omega arith) (omega arith)

-- Of the two, one is accepted.
accepted_test : accepted texts config (λ q. q.checks) 9 (upload 400 ∷ upload 10 ∷ []) [] ≡ 2
unfolding accepted charge provider_gate active_checks distinct
accepted_test = refl

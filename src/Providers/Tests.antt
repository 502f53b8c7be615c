-- ===== src/Providers/Tests.antt =====
-- A concrete speech ledger near its limit, and calls at a bucket with two slots.
use ovrly.Prelude.{
  none, some, ◌+◌, ◌≡◌, ◌≤◌, ◌≢◌, count_where, refl, true, false, List, [], ◌∷◌, arith,
}
use ovrly.Jobs.Tables.{Database}
use ovrly.Jobs.Fixtures.{codec, one_queued}
use ovrly.Asr.Usage.{fits, usage}
use ovrly.Asr.Reservations.{reserve_in}
use ovrly.Asr.Windows.{reserve_each, reserve}
use ovrly.Asr.Fixtures.{speech_settings, reservation}
use ovrly.Admission.Quotas.{near_exhaustion, retry_after}
use ovrly.Providers.Speech.{
  Fraction, asr_status, recovers_of, window_recover, recover_from, by_time, insert_by_time,
  longest_hold,
}
use ovrly.Providers.Recovery.{asr_status-recovers}
use ovrly.Providers.Slots.{Slot, Bucket, acquire_slot, find_slot, release_slot}
use ovrly.Providers.Capacity.{SlotOp, acquire, release, slot_step, slots_after}
use ovrly.Providers.Running.{Calls, is_live, call_step, calls_after}
use ovrly.Providers.Leases.{slot_row, live_slot_kept}

abbrev tenth : Fraction
tenth = record { num = 1; den = 10 }

abbrev near : Database
near = reserve_each codec speech_settings (reservation 1 ∷ reservation 2 ∷ []) one_queued

-- Two of two requests a minute: the reserve is back when the first of them is a minute old.
near_test : retry_after (asr_status speech_settings tenth true 2 near) ≡ 59999999
unfolding asr_status recovers_of window_recover recover_from by_time insert_by_time longest_hold
    reserve_each reserve reserve_in fits usage
near_test = refl

long_enough : 2 + retry_after (asr_status speech_settings tenth true 2 near) ≤ 60000001
long_enough = omega (arith, near_test)

asr_status-recovers_example :
    near_exhaustion (asr_status speech_settings tenth true 60000001 near) ≡ false
asr_status-recovers_example =
    asr_status-recovers speech_settings tenth true 2 60000001 near long_enough

abbrev bucket : Bucket
bucket = record { name = "scholarxiv"; concurrency = 2; request_timeout = 20000000 }

abbrev first_slot : Slot
first_slot = record { provider = "scholarxiv"; slot = 0; lease_id = 1; expires_at = 25000001 }

-- Of three calls at once the third finds no slot.
third_call_test :
    (acquire_slot bucket 3
      (λ k. 3)
      (slots_after bucket (acquire 1 (λ k. 1) ∷ acquire 2 (λ k. 2) ∷ []) [])).0
    ≡ none
unfolding acquire_slot find_slot slots_after slot_step
third_call_test = refl

-- The third call finds no slot, the first one ends, and the fourth takes its slot.
abbrev four_calls : List SlotOp
four_calls =
    acquire 1 (λ k. 1)
    ∷ acquire 2 (λ k. 2)
    ∷ acquire 3 (λ k. 3)
    ∷ release 0 1
    ∷ acquire 4 (λ k. 4)
    ∷ []

abbrev no_calls : Calls
no_calls = record { rows = []; running = [] }

two_run_test : count_where (is_live bucket 4) (calls_after bucket four_calls no_calls).running ≡ 2
unfolding calls_after call_step acquire_slot find_slot release_slot
two_run_test = refl

two_is_another : 2 ≢ first_slot.lease_id
two_is_another e = omega (arith, e)

live_slot_kept_example :
    slot_row bucket 0
      (slots_after bucket (acquire 2 (λ k. 500) ∷ release 0 2 ∷ []) (first_slot ∷ []))
    ≡ some first_slot
live_slot_kept_example =
    live_slot_kept bucket 0 first_slot (acquire 2 (λ k. 500) ∷ release 0 2 ∷ []) (first_slot ∷ [])
      ((λ k. omega arith), (two_is_another, tt)) refl

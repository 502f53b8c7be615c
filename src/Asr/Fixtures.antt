-- ===== src/Asr/Fixtures.antt =====
-- Settings and reservations for concrete runs of the speech ledger.
use ovrly.Prelude.{ℕ, some}
use ovrly.Asr.Usage.{Settings}
use ovrly.Asr.Reservations.{Reservation}

abbrev pub speech_settings : Settings
speech_settings = record {
  groq_account_id = "acct";
  groq_model = "turbo";
  groq_fallback_model = "large";
  asr_requests_per_minute = some 2;
  asr_requests_per_day = some 100;
  asr_audio_seconds_per_hour = some 600;
  asr_audio_seconds_per_day = some 2000;
  asr_minimum_billable_seconds = some 10;
}

abbrev pub reservation : ℕ → Reservation
reservation t = record {
  id = t;
  job_id = 1;
  duration = 30;
  index = 0;
  model = "turbo";
  timestamp = t;
  outcome = "reserved";
}

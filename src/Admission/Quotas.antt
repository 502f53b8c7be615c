-- ===== src/Admission/Quotas.antt =====
-- backend/services/quotas.py: the budgets that a request is charged to before its jobs are enqueued.
-- Timestamps and delays are whole microseconds, counted from a midnight in UTC.
use ovrly.Prelude.{
  ℕ, ◌+◌, ◌-◌, ◌*◌, ◌/◌, max, Bool, not, ◌&&◌, Option, none, some, List, [], ◌∷◌, ◌++◌, String,
  str_eq, ◌==◌, ltb, leb, sql_eq, if◌then◌else◌, any, map, select, length, first_where,
  update_where, Outcome, ok, err, ◌>>=◌,
}
use ovrly.Json.{Json, null, get_field}
use ovrly.Jobs.States.{in_active}
use ovrly.Jobs.Tables.{Job}

-- What admission takes from Python and PostgreSQL: the text of a JSON value (`->>`), the text of a
-- UUID, and `str(investigation_id)`, where `none` is "None".
pub record Texts : Type 0 where
  pub json_text : Json → String
  pub uuid_text : ℕ → String
  pub python_str : Option ℕ → String

pub record Config : Type 0 where
  pub quotas_enabled : Bool
  pub quota_active_checks : ℕ
  pub quota_daily_checks : ℕ
  pub quota_daily_upload_bytes : ℕ

-- A row of `quota_usage`; a day is a number of days.
pub record QuotaUsage : Type 0 where
  pub owner_id : ℕ
  pub day : ℕ
  pub checks : ℕ
  pub upload_bytes : ℕ

-- The columns of `capture_sessions` that admission reads.
pub record CaptureSession : Type 0 where
  pub id : ℕ
  pub owner_id : ℕ
  pub state : String
  pub expires_at : ℕ

-- `ProviderStatus` of backend/services/provider_budgets.py: whether the provider is configured, its
-- hold, and the recovery of each of its limits.
pub record ProviderStatus : Type 0 where
  pub configured : Bool
  pub hold : ℕ
  pub recovers : List ℕ

abbrev pub largest : ℕ → List ℕ → ℕ
largest n [] = n
largest n (x ∷ xs) = largest (max n x) xs

abbrev pub retry_after : ProviderStatus → ℕ
retry_after s = largest s.hold s.recovers

abbrev pub near_exhaustion : ProviderStatus → Bool
near_exhaustion s = ltb 0 (retry_after s)

abbrev pub pauses_intake : ProviderStatus → Bool
pauses_intake s = s.configured && near_exhaustion s

-- The refusals of `exhausted`, with the seconds of `Retry-After`.
pub data Refusal : Type 0 where
  provider_quota_exhausted active_checks_exceeded daily_checks_exceeded : ℕ → Refusal
  daily_upload_exceeded : ℕ → Refusal

-- `max(1, math.ceil(seconds))`
abbrev pub header_seconds : ℕ → ℕ
header_seconds microseconds = max 1 ((microseconds + 999999) / 1000000)

abbrev pub paused_of : List ProviderStatus → List ProviderStatus
paused_of = select pauses_intake

-- `provider_gate`
unfoldable pub provider_gate : Config → List ProviderStatus → Outcome Refusal (Unit {0})
provider_gate config statuses =
    if not config.quotas_enabled then ok tt else elim (paused_of statuses) [
      | [] ↦ ok tt
      | s ∷ rest ↦ err (
          Refusal.provider_quota_exhausted
            (header_seconds (largest (retry_after s) (map retry_after rest))))
    ]

abbrev pub text_of : Texts → Option Json → Option String
text_of texts none = none
text_of texts (some null) = none
text_of texts (some v) = some (texts.json_text v)

abbrev pub or_else {ℓ} : {A : Type ℓ} → Option A → Option A → Option A
or_else none b = b
or_else (some a) b = some a

abbrev pub or_text : Option String → String → String
or_text none b = b
or_text (some a) b = a

-- `func.coalesce(payload["investigation_id"], payload["capture_id"], payload["session_id"], id)`
abbrev pub identifier_of : Texts → Job → String
identifier_of texts r =
    or_text
      (or_else (text_of texts (get_field "investigation_id" r.payload)) (
        or_else (text_of texts (get_field "capture_id" r.payload))
          (text_of texts (get_field "session_id" r.payload))))
      (texts.uuid_text r.id)

abbrev pub is_fence_stage : String → Bool
is_fence_stage stage = str_eq stage "upload_device_text"

abbrev pub is_active_job : ℕ → Job → Bool
is_active_job owner_id r =
    sql_eq r.owner_id owner_id && (in_active r.state && not (is_fence_stage r.key.stage))

abbrev pub is_open_session : ℕ → ℕ → CaptureSession → Bool
is_open_session owner_id now s =
    s.owner_id == owner_id && (str_eq s.state "open" && ltb now s.expires_at)

abbrev pub contains : String → List String → Bool
contains x = any (str_eq x)

-- The set of a list: each text once.
unfoldable pub distinct : List String → List String
distinct [] = []
distinct (x ∷ xs) = let rest = distinct xs in if contains x rest then rest else x ∷ rest

-- `active_checks`
unfoldable pub active_checks : Texts → ℕ → ℕ → List Job → List CaptureSession → List String
active_checks texts owner_id now jobs sessions = distinct (
    map (identifier_of texts) (select (is_active_job owner_id) jobs)
    ++ map (λ s. texts.uuid_text s.id) (select (is_open_session owner_id now) sessions))

abbrev pub day_length : ℕ
day_length = 86400000000

abbrev pub day_of : ℕ → ℕ
day_of now = now / day_length

abbrev pub until_reset : ℕ → ℕ
until_reset now = (day_of now + 1) * day_length - now

-- What `used` counts on a day.
abbrev pub checks_on : ℕ → Option QuotaUsage → ℕ
checks_on day none = 0
checks_on day (some used) = if used.day == day then used.checks else 0

abbrev pub bytes_on : ℕ → Option QuotaUsage → ℕ
bytes_on day none = 0
bytes_on day (some used) = if used.day == day then used.upload_bytes else 0

abbrev pub of_owner : ℕ → QuotaUsage → Bool
of_owner owner_id r = r.owner_id == owner_id

-- `insert(quota_usage)…on_conflict_do_update(index_elements=["owner_id"])`
abbrev pub upsert : QuotaUsage → List QuotaUsage → List QuotaUsage
upsert row rows =
    if any (of_owner row.owner_id) rows
    then update_where (of_owner row.owner_id) (λ _. row) rows
    else rows ++ row ∷ []

-- What a request is charged for, with what its transaction reads: the jobs and the capture sessions
-- at `checked_at`, the providers' budgets, and `now`, the database's clock.
pub record Charge : Type 0 where
  pub owner_id : ℕ
  pub checks : ℕ
  pub upload_bytes : ℕ
  pub investigation_id : Option ℕ
  pub jobs : List Job
  pub sessions : List CaptureSession
  pub checked_at : ℕ
  pub now : ℕ
  pub statuses : List ProviderStatus

-- The guard of a new check.
abbrev pub check_gate : Texts → Config → Charge → Outcome Refusal (Unit {0})
check_gate texts config q =
    if q.checks == 0
    then ok tt
    else (provider_gate config q.statuses) >>= λ _.
        let active = active_checks texts q.owner_id q.checked_at q.jobs q.sessions in
        if leb config.quota_active_checks (length active)
          && not (contains (texts.python_str q.investigation_id) active)
        then err (Refusal.active_checks_exceeded 30)
        else ok tt

abbrev pub charged_row : Charge → Option QuotaUsage → QuotaUsage
charged_row q used = record {
  owner_id = q.owner_id;
  day = day_of q.now;
  checks = checks_on (day_of q.now) used + q.checks;
  upload_bytes = bytes_on (day_of q.now) used + q.upload_bytes;
}

abbrev pub charge_used :
    Config → Charge → Option QuotaUsage → List QuotaUsage → Outcome Refusal (List QuotaUsage)
charge_used config q used rows =
    let wait = header_seconds (until_reset q.now) in
    if ltb config.quota_daily_checks (checks_on (day_of q.now) used + q.checks)
    then err (Refusal.daily_checks_exceeded wait)
    else if ltb config.quota_daily_upload_bytes (bytes_on (day_of q.now) used + q.upload_bytes)
    then err (Refusal.daily_upload_exceeded wait)
    else ok (upsert (charged_row q used) rows)

-- `charge`
unfoldable pub charge :
    Texts → Config → Charge → List QuotaUsage → Outcome Refusal (List QuotaUsage)
charge texts config q rows =
    if not config.quotas_enabled
    then ok rows
    else (check_gate texts config q) >>= λ _.
        charge_used config q (first_where (of_owner q.owner_id) rows) rows

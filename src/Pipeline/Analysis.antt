-- ===== src/Pipeline/Analysis.antt =====
-- backend/services/pipeline/analysis.py: the deadlines for device text that queue transactions
-- record and resolve. Timestamps are microseconds.
use ovrly.Prelude.{
  ℕ, ◌+◌, ◌*◌, ◌≡◌, refl, arith, Bool, true, false, not, ◌&&◌, Option, none, some, List, [], ◌∷◌,
  ◌++◌, str_eq, ◌==◌, leb, sql_eq, if◌then◌else◌, update_where, first_where, any, is_some,
}
use ovrly.Json.{Json, number, Document, Codec, get_field, truthy, integer_at, uuid_of_text}
use ovrly.Jobs.Tables.{
  Job, UploadText, MediaAnalysis, Database, Clocks, Error, Result, ok, err, no_result_found,
  invalid_document, ◌>>=◌,
}

abbrev pub microseconds : ℕ → ℕ
microseconds seconds = seconds * 1000000

-- `text_deadline <= now()` in SQL, false on a null.
abbrev due : Option ℕ → ℕ → Bool
due none _ = false
due (some deadline) now = leb deadline now

abbrev or_raise {ℓ} : {A : Type ℓ} → Option A → Error → Result A
or_raise none e = err e
or_raise (some a) e = ok a

-- `insert(media_analysis)…on_conflict_do_nothing()`
abbrev insert_analysis : MediaAnalysis → List MediaAnalysis → List MediaAnalysis
insert_analysis row rows =
    if any (λ r. r.media_job_id == row.media_job_id) rows then rows else rows ++ row ∷ []

-- The first branch of `record_terminal`, where the result holds `text_grace_seconds`.
record_media : Codec → Clocks → Job → Document → Json → Database → Result Database
record_media codec clocks job result (number grace) db = do
  identifier ←
      or_raise (uuid_of_text codec (get_field "investigation_id" job.payload)) invalid_document
  let deadline =
      if is_some (get_field "speech" result) then some (clocks.wall + microseconds grace) else none
  let row : MediaAnalysis = record {
    media_job_id = job.id;
    investigation_id = identifier;
    grace_seconds = grace;
    text_deadline = deadline;
    text_expired = false;
  }
  ok (record db { media_analysis = insert_analysis row db.media_analysis })
record_media codec clocks job result _ db = err invalid_document

-- The second branch, where the payload names a media job.
record_speech : Codec → Clocks → Job → Database → Result Database
record_speech codec clocks job db = do
  media_id ← or_raise (uuid_of_text codec (get_field "media_job_id" job.payload)) invalid_document
  ok (record db {
    media_analysis =
        update_where (λ r. r.media_job_id == media_id && not (is_some r.text_deadline))
          (λ r. record r { text_deadline = some (clocks.wall + microseconds r.grace_seconds) })
          db.media_analysis;
  })

abbrev grace_of : Option Document → Option (Document × Json)
grace_of none = none
grace_of (some result) = elim (get_field "text_grace_seconds" result) [
  | none ↦ none
  | some g ↦ some (result, g)
]

abbrev names_media : Option Json → Bool
names_media none = false
names_media (some v) = truthy v

abbrev record_for : Codec → Clocks → Job → Option (Document × Json) → Database → Result Database
unfolding record_media record_speech
record_for codec clocks job (some (result, grace)) db =
    if str_eq job.key.stage "media_validation"
    then record_media codec clocks job result grace db
    else if str_eq job.key.stage "upload_asr" && names_media (get_field "media_job_id" job.payload)
    then record_speech codec clocks job db
    else ok db
record_for codec clocks job none db =
    if str_eq job.key.stage "upload_asr" && names_media (get_field "media_job_id" job.payload)
    then record_speech codec clocks job db
    else ok db

unfoldable pub record_terminal : Codec → Clocks → ℕ → Option Document → Database → Result Database
unfolding record_media record_speech
record_terminal codec clocks job_id result db = do
  job ← or_raise (first_where (λ r. r.id == job_id) db.jobs) no_result_found
  record_for codec clocks job (grace_of result) db

-- `completion["batch_count"]` of the text of one media job is an integer.
abbrev text_complete : ℕ → List UploadText → Bool
text_complete media_job_id =
    any (λ t. sql_eq t.media_job_id media_job_id && is_some (integer_at "batch_count" t.completion))

unfoldable pub resolve_due : Clocks → Database → Database
resolve_due clocks db = record db {
  media_analysis =
      update_where
        (λ r.
          not r.text_expired
          && due r.text_deadline clocks.wall
          && not (text_complete r.media_job_id db.upload_text))
        (λ r. record r { text_expired = true }) db.media_analysis;
}

-- The tables after a transaction: as they were where it raised.
abbrev pub or_before : Result Database → Database → Database
or_before (ok after) before = after
or_before (err _) before = before

-- Recording a terminal result touches no row but those of `media_analysis`.
pub record_terminal-rest :
    (codec : Codec) (clocks : Clocks) (job_id : ℕ) (result : Option Document) (db : Database)
    → let after = or_before (record_terminal codec clocks job_id result db) db in
      after ≡ record db { media_analysis = after.media_analysis }
unfolding record_terminal
record_terminal-rest codec clocks job_id result db = ground arith

pub resolve_due-jobs : (clocks : Clocks) (db : Database) → (resolve_due clocks db).jobs ≡ db.jobs
unfolding resolve_due
resolve_due-jobs clocks db = refl

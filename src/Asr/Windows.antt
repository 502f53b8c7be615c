-- ===== src/Asr/Windows.antt =====
-- The rolling windows of backend/services/asr/reservations.py are never exceeded.
use ovrly.Prelude.{
  ℕ, ◌+◌, ◌≤◌, ◌≡◌, sym, subst, inl, inr, Bool, true, false, &&-left, &&-right, Bool-cases, Option,
  none, some, List, [], ◌∷◌, ◌++◌, All, String, str_eq, eq_iff, arith, if◌then◌else◌, ok, err,
  update_where, ◌==◌,
}
use ovrly.Json.{Codec}
use ovrly.Jobs.Tables.{AsrRequest, Database, Job}
use ovrly.Jobs.Retries.{or_zero}
use ovrly.Asr.Usage.{
  Settings, Window, windows, window_filter, units, usage, window_usage, has_room, fits, billable,
}
use ovrly.Asr.Reservations.{Reservation, reserved_row, reserve_in}

usage-append :
    (settings : Settings) (seconds : ℕ) (audio : Bool) (t : ℕ) (model : String)
    (rows : List AsrRequest) (x : AsrRequest)
    → usage settings seconds audio t model (rows ++ x ∷ [])
      ≡ usage settings seconds audio t model rows
        + (if window_filter settings seconds t model x then units audio x else 0)
unfolding usage
usage-append settings seconds audio t model [] x = omega arith
usage-append settings seconds audio t model (r ∷ rows) x =
    omega (arith, usage-append settings seconds audio t model rows x)

filter_later :
    (settings : Settings) (seconds s t : ℕ) (model : String) (r : AsrRequest)
    → s ≤ t
    → window_filter settings seconds t model r ≡ true
    → window_filter settings seconds s model r ≡ true
filter_later settings seconds s t model r h k = ground arith

-- Time only frees quota.
pub usage_later :
    (settings : Settings) (seconds : ℕ) (audio : Bool) (s t : ℕ) (model : String)
    (rows : List AsrRequest)
    → s ≤ t
    → usage settings seconds audio t model rows ≤ usage settings seconds audio s model rows
unfolding usage
usage_later settings seconds audio s t model [] h = omega arith
usage_later settings seconds audio s t model (r ∷ rows) h =
    elim (Bool-cases (window_filter settings seconds t model r)) [
      | inl counts ↦
          rw (counts, filter_later settings seconds s t model r h counts)
            (omega (arith, usage_later settings seconds audio s t model rows h))
      | inr left ↦ rw left (omega (arith, usage_later settings seconds audio s t model rows h))
    ]

room : (limit : Option ℕ) (n : ℕ) → has_room limit n ≡ true → n ≤ or_zero limit
room none n h = cc
room (some limit) n h = ground arith

units_of_reserved :
    (settings : Settings) (seconds : ℕ) (audio : Bool) (t : ℕ) (q : Reservation)
    → (if window_filter settings seconds t q.model (reserved_row settings q)
        then units audio (reserved_row settings q)
        else 0)
      ≤ (if audio then billable settings q.duration else 1)
units_of_reserved settings seconds audio t q = ground arith

not_counted :
    (settings : Settings) (seconds : ℕ) (audio : Bool) (t : ℕ) (model : String) (q : Reservation)
    → str_eq q.model model ≡ false
    → (if window_filter settings seconds t model (reserved_row settings q)
        then units audio (reserved_row settings q)
        else 0)
      ≡ 0
not_counted settings seconds audio t model q h = rw h (ground arith)

-- What a window counts for a model at a time is within its limit; a window without a limit counts
-- nothing.
abbrev pub IsWithin : Settings → ℕ → String → Database → Window → Type 0
IsWithin settings t model db w =
    window_usage settings w.seconds w.audio t model db ≤ or_zero w.limit

abbrev pub AllWithin : Settings → ℕ → String → Database → Type 0
AllWithin settings t model db = All (IsWithin settings t model db) (windows settings)

module _ (codec : Codec) (settings : Settings) (q : Reservation) (db : Database) where
  abbrev pub reserved_db : Database
  reserved_db = record db {
    asr_requests = db.asr_requests ++ reserved_row settings q ∷ [];
    jobs =
        update_where (λ (r : Job). r.id == q.job_id)
          (λ r. record r { provider_request_id = some (codec.uuid_text q.id) }) db.jobs;
  }

  reserved-IsWithin :
      (t : ℕ) (ws : List Window)
      → q.timestamp ≤ t
      → fits settings ws (billable settings q.duration) q.timestamp q.model db ≡ true
      → All (IsWithin settings t q.model reserved_db) ws
  unfolding fits
  reserved-IsWithin t [] h k = tt
  reserved-IsWithin t (w ∷ ws) h k = (
    (let now = q.timestamp in
        let rows = db.asr_requests in
        let before = usage settings w.seconds w.audio now q.model rows in
        let fit : before + (if w.audio then billable settings q.duration else 1) ≤ or_zero w.limit =
          room w.limit _ (&&-left _ _ k) in
        omega (
          arith,
          fit,
          usage-append settings w.seconds w.audio t q.model rows (reserved_row settings q),
          usage_later settings w.seconds w.audio now t q.model rows h,
          units_of_reserved settings w.seconds w.audio t q,
        )),
    reserved-IsWithin t ws h (&&-right _ _ k),
  )

  other-IsWithin :
      (t : ℕ) (model : String) (ws : List Window)
      → q.timestamp ≤ t
      → str_eq q.model model ≡ false
      → All (IsWithin settings q.timestamp model db) ws
      → All (IsWithin settings t model reserved_db) ws
  other-IsWithin t model [] h k a = tt
  other-IsWithin t model (w ∷ ws) h k a = (
    (let rows = db.asr_requests in
        let added : (if window_filter settings w.seconds t model (reserved_row settings q)
              then units w.audio (reserved_row settings q)
              else 0)
            ≡ 0 =
          not_counted settings w.seconds w.audio t model q k in
        omega (
          arith,
          added,
          usage-append settings w.seconds w.audio t model rows (reserved_row settings q),
          usage_later settings w.seconds w.audio q.timestamp t model rows h,
          a.0,
        )),
    other-IsWithin t model ws h k a.1,
  )

later-IsWithin :
    (settings : Settings) (s t : ℕ) (model : String) (db : Database) (ws : List Window)
    → s ≤ t
    → All (IsWithin settings s model db) ws
    → All (IsWithin settings t model db) ws
later-IsWithin settings s t model db [] h a = tt
later-IsWithin settings s t model db (w ∷ ws) h a = (
  omega (arith, a.0, usage_later settings w.seconds w.audio s t model db.asr_requests h),
  later-IsWithin settings s t model db ws h a.1,
)

-- A reservation, where there is room for it.
unfoldable pub reserve : Codec → Settings → Reservation → Database → Database
reserve codec settings q db = elim (reserve_in codec settings q db) [ ok r ↦ r.1 | err e ↦ db ]

reserve-room :
    (codec : Codec) (settings : Settings) (q : Reservation) (db : Database)
    → fits settings (windows settings) (billable settings q.duration) q.timestamp q.model db ≡ true
    → reserve codec settings q db ≡ reserved_db codec settings q db
unfolding reserve reserve_in
reserve-room codec settings q db h = ground arith

reserve_full :
    (codec : Codec) (settings : Settings) (q : Reservation) (db : Database)
    → fits settings (windows settings) (billable settings q.duration) q.timestamp q.model db ≡ false
    → reserve codec settings q db ≡ db
unfolding reserve reserve_in
reserve_full codec settings q db h = ground arith

reserve-AllWithin :
    (codec : Codec) (settings : Settings) (q : Reservation) (db : Database) (t : ℕ) (model : String)
    → q.timestamp ≤ t
    → AllWithin settings q.timestamp model db
    → AllWithin settings t model (reserve codec settings q db)
reserve-AllWithin codec settings q db t model h a =
    let ws = windows settings in
    elim (Bool-cases (fits settings ws (billable settings q.duration) q.timestamp q.model db)) [
      | inl fit ↦
          subst (AllWithin settings t model) (sym (reserve-room codec settings q db fit))
            (elim (Bool-cases (str_eq q.model model)) [
              | inl same ↦
                  subst (λ m. AllWithin settings t m (reserved_db codec settings q db))
                    ((eq_iff q.model model).0 same)
                    (reserved-IsWithin codec settings q db t ws h fit)
              | inr other ↦ other-IsWithin codec settings q db t model ws h other a
            ])
      | inr full ↦
          subst (AllWithin settings t model) (sym (reserve_full codec settings q db full))
            (later-IsWithin settings q.timestamp t model db ws h a)
    ]

unfoldable pub reserve_each : Codec → Settings → List Reservation → Database → Database
unfolding reserve
reserve_each codec settings [] db = db
reserve_each codec settings (q ∷ qs) db =
    reserve_each codec settings qs (reserve codec settings q db)

-- Each reservation is made at or after the time of the one before it, none before `start` and none
-- after `end`.
abbrev pub InOrder : ℕ → List Reservation → ℕ → Type 0
InOrder start [] end = start ≤ end
InOrder start (q ∷ qs) end = (start ≤ q.timestamp) × InOrder q.timestamp qs end

-- However many reservations are asked for, each at or after the time of the one before it, no
-- rolling window of a model ever counts more than its limit, where it was so at the start; a
-- window without a limit counts nothing.
pub reserve_each-AllWithin :
    (codec : Codec) (settings : Settings) (qs : List Reservation) (db : Database) (start end : ℕ)
    (model : String)
    → InOrder start qs end
    → AllWithin settings start model db
    → AllWithin settings end model (reserve_each codec settings qs db)
unfolding reserve_each
reserve_each-AllWithin codec settings [] db start end model h a =
    later-IsWithin settings start end model db (windows settings) h a
reserve_each-AllWithin codec settings (q ∷ qs) db start end model h a =
    let now = later-IsWithin settings start q.timestamp model db (windows settings) h.0 a in
    reserve_each-AllWithin codec settings qs (reserve codec settings q db) q.timestamp end model h.1
      (reserve-AllWithin codec settings q db q.timestamp model (omega arith) now)

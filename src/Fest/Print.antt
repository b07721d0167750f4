-- ===== src/Fest/Print.antt =====
-- src/storage/fest_print.ts: the stations of a team and the labels they print. A token's hash, the beers
-- and the members' initials are parameters; times are in milliseconds.
use Prim.Native.String.{String}
use warsaw_beer_bot.Base.{
  ℕ, suc, Bool, true, false, ◌&&◌, Option, none, some, List, [], ◌∷◌, ◌++◌, map, leb, ltb, ◌==◌,
  if◌then◌else◌, find?, any, take,
}
use warsaw_beer_bot.Base.Sort.{sort}
use warsaw_beer_bot.Base.Decimal.{Text}
use warsaw_beer_bot.Base.Strings.{same_string}
use warsaw_beer_bot.Fest.Queue.{QueueRow, JobStatus, queued, printed, failed, PrintJob, QueueDb}

abbrev pub max_error : ℕ
max_error = 200

-- A row of fest_print_stations.
pub record Station : Type 0 where
  pub token_hash : String
  pub team_id : ℕ
  pub created_by : ℕ
  pub created_at : ℕ
  pub expires_at : ℕ

pub record StationInput : Type 0 where
  pub team_id : ℕ
  pub created_by : ℕ
  pub now : ℕ
  pub expires_at : ℕ

module _ (hash_token : String → String) where
  -- The token is fresh random bytes.
  unfoldable pub create_station : (token : String) → StationInput → List Station → List Station
  create_station token p stations =
      stations
      ++ record {
        token_hash = hash_token token;
        team_id = p.team_id;
        created_by = p.created_by;
        created_at = p.now;
        expires_at = p.expires_at;
      }
        ∷ []

  unfoldable pub station_team : List Station → (token : String) → (now : ℕ) → Option ℕ
  station_team stations token now =
      team_of
        (find? (λ s. same_string s.token_hash (hash_token token) && ltb now s.expires_at) stations)
    where
      team_of : Option Station → Option ℕ
      team_of none = none
      team_of (some s) = some s.team_id

-- What a station is told of a job.
pub record Label : Type 0 where
  pub id : ℕ
  pub glass_no : ℕ
  pub beer_name : String
  pub brewery : String
  pub initials : String
  pub status : JobStatus
  pub attempts : ℕ
  pub error : Option Text

abbrev is_pending : JobStatus → Bool
is_pending printed = false
is_pending _ = true

-- The beer is a name and a brewery, and the initials are those of the team's member who took the glass.
module _ (beer : ℕ → Option (String × String))
    (initials : (team telegram_id : ℕ) → Option String) where
  abbrev initials_or_unknown : Option String → String
  initials_or_unknown none = "?"
  initials_or_unknown (some i) = i

  abbrev with_beer : PrintJob → QueueRow → Option (String × String) → List Label
  with_beer j r none = []
  with_beer j r (some (name, brewery)) =
      record {
        id = r.id;
        glass_no = r.glass_no;
        beer_name = name;
        brewery = brewery;
        initials = initials_or_unknown (initials r.team_id r.added_by);
        status = j.status;
        attempts = j.attempts;
        error = j.error;
      }
      ∷ []

  abbrev with_row : ℕ → PrintJob → Option QueueRow → List Label
  with_row team j none = []
  with_row team j (some r) =
      if r.team_id == team && is_pending j.status then with_beer j r (beer r.beer_id) else []

  abbrev labels : ℕ → List QueueRow → List PrintJob → List Label
  labels team queue [] = []
  labels team queue (j ∷ js) =
      with_row team j (find? (λ r. r.id == j.queue_id) queue) ++ labels team queue js

  unfoldable pub pending_jobs : QueueDb → (team : ℕ) → List Label
  pending_jobs db team = sort (λ a b. leb a.glass_no b.glass_no) (labels team db.queue db.jobs)

-- The job of this glass, where the glass is the team's.
abbrev pub is_own : (team queue_id : ℕ) → QueueDb → PrintJob → Bool
is_own team queue_id db j =
    j.queue_id == queue_id && any (λ r. r.id == queue_id && r.team_id == team) db.queue

abbrev pub set_status : (PrintJob → PrintJob) → (team queue_id : ℕ) → QueueDb → QueueDb × Bool
set_status set team queue_id db = (
  record db { jobs = map (λ j. if is_own team queue_id db j then set j else j) db.jobs },
  any (is_own team queue_id db) db.jobs,
)

unfoldable pub mark_printed : (team queue_id : ℕ) → QueueDb → QueueDb × Bool
mark_printed =
    set_status λ j. record j { status = printed; attempts = suc j.attempts; error = none }

unfoldable pub mark_failed : (team queue_id : ℕ) → (error : Text) → QueueDb → QueueDb × Bool
mark_failed team queue_id error =
    set_status
      (λ j. record j {
        status = failed;
        attempts = suc j.attempts;
        error = some (take max_error error);
      })
      team queue_id

unfoldable pub requeue : (team queue_id : ℕ) → QueueDb → QueueDb × Bool
requeue = set_status λ j. record j { status = queued; error = none }

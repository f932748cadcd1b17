-- ===== src/Lifecycle/Draining.antt =====
-- Admission and shutdown (backend/internal/server/lifecycle.go). Requests run at the same time;
-- what stands under activeMu is one step. A Runtime that is nil is left out.
pub mod Safety
use file_transit_desk.Prelude.{
  ℕ, zero, suc, ◌+◌, ◌-◌, String, ◌==◌, ◌≡◌, Bool, true, false, not, ◌&&◌, ◌||◌, List, [], ◌∷◌,
  ◌++◌, map, if◌then◌else◌,
}

pub record Runtime : Type 0 where
  pub initialized : Bool
  pub draining : Bool
  -- The context of the maintenance.
  pub cancelled : Bool
  pub active : ℕ

unfoldable pub new_runtime : Runtime
new_runtime = record { initialized = false; draining = false; cancelled = false; active = 0 }

unfoldable pub begin_drain : Runtime → Runtime
begin_drain r = record r { draining = true; cancelled = true }

unfoldable pub is_ready : Runtime → Bool
is_ready r = r.initialized && (not r.draining && not r.cancelled)

-- A request with its path, and where it stands: within c.Next() of an admission that counts it, or
-- of one that does not, or over, with or without an answer of its handler.
pub data Request : Type 0 where
  arriving : String → Request
  counted uncounted : Request
  refused answered : Request

abbrev pub is_health : String → Bool
is_health path =
    (path == "/api/health") || ((path == "/api/health/live") || (path == "/api/health/ready"))

unfoldable pub request_admission : String → Runtime → Runtime × Request
request_admission path r =
    if is_health path
    then (r, uncounted)
    else if r.draining
    then (r, refused)
    else (record r { active = suc r.active }, counted)

-- The clean-up of an admitted request.
unfoldable pub request_cleanup : Runtime → Runtime
request_cleanup r = record r { active = r.active - 1 }

pub data RequestMoves (r : Runtime) : Request → Runtime → Request → Type 0 where
  arrives :
      (path : String)
      → RequestMoves r (arriving path) (request_admission path r).0 (request_admission path r).1
  cleans_up : RequestMoves r counted (request_cleanup r) answered
  ends : RequestMoves r uncounted r answered

-- Where the one run of Shutdown's body stands: App.Shutdown comes after the wait, and the closing of
-- the database after that.
pub data Stage : Type 0 where
  not_called waiting stopping closed : Stage

-- The wait is over once the number of active requests is 0; the last clean-up wakes it.
pub data ShutdownMoves (r : Runtime) : Stage → Runtime → Stage → Type 0 where
  begins : ShutdownMoves r not_called (begin_drain r) waiting
  waits : r.active ≡ 0 → ShutdownMoves r waiting r stopping
  closes : ShutdownMoves r stopping (record r { cancelled = true }) closed

pub record System : Type 0 where
  pub runtime : Runtime
  pub stage : Stage
  pub requests : List Request

-- What can be reached from the start, with the requests that are to come in any number.
pub data Reachable : System → Type 0 where
  starts :
      (paths : List String)
      → Reachable
          (record { runtime = new_runtime; stage = not_called; requests = map arriving paths })
  initializes :
      {r : Runtime} {g : Stage} {qs : List Request}
      → Reachable (record { runtime = r; stage = g; requests = qs })
      → Reachable (record { runtime = record r { initialized = true }; stage = g; requests = qs })
  drains :
      {r : Runtime} {g : Stage} {qs : List Request}
      → Reachable (record { runtime = r; stage = g; requests = qs })
      → Reachable (record { runtime = begin_drain r; stage = g; requests = qs })
  moves :
      {r r' : Runtime} {q q' : Request} {g : Stage} (before after : List Request)
      → Reachable (record { runtime = r; stage = g; requests = before ++ (q ∷ after) })
      → RequestMoves r q r' q'
      → Reachable (record { runtime = r'; stage = g; requests = before ++ (q' ∷ after) })
  shuts_down :
      {r r' : Runtime} {g g' : Stage} {qs : List Request}
      → Reachable (record { runtime = r; stage = g; requests = qs })
      → ShutdownMoves r g r' g'
      → Reachable (record { runtime = r'; stage = g'; requests = qs })

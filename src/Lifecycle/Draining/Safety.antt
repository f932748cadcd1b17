-- ===== src/Lifecycle/Draining/Safety.antt =====
-- What the shutdown of backend/internal/server/lifecycle.go waits for.
use file_transit_desk.Prelude.{
  String, ◌≡◌, refl, sym, ◌∙◌, Bool, true, false, List, [], ◌∷◌, ◌++◌, map, count, count-middle,
  arith,
}
use file_transit_desk.Lifecycle.Draining.{
  Runtime, new_runtime, begin_drain, is_ready, Request, arriving, counted, request_admission,
  request_cleanup, RequestMoves, arrives, cleans_up, ends, Stage, not_called, waiting, stopping,
  closed, ShutdownMoves, begins, waits, closes, System, Reachable, starts, initializes, drains,
  moves, shuts_down,
}

-- The request was admitted and is not over.
abbrev pub is_counted : Request → Bool
is_counted counted = true
is_counted _ = false

abbrev pub has_begun : Stage → Bool
has_begun not_called = false
has_begun _ = true

-- App.Shutdown and the closing of the database come now, or are over.
abbrev pub has_waited : Stage → Bool
has_waited not_called = false
has_waited waiting = false
has_waited stopping = true
has_waited closed = true

record IsOrderly (r : Runtime) (g : Stage) (qs : List Request) : Type 0 where
  active : r.active ≡ count is_counted qs
  draining : has_begun g ≡ true → r.draining ≡ true
  none_left : has_waited g ≡ true → r.active ≡ 0

none_counted : (paths : List String) → count is_counted (map arriving paths) ≡ 0
unfolding count
none_counted [] = refl
none_counted (p ∷ ps) = none_counted ps

begun_before : (g : Stage) → has_waited g ≡ true → has_begun g ≡ true
begun_before not_called e = cc
begun_before waiting e = refl
begun_before stopping e = refl
begun_before closed e = refl

request-IsOrderly :
    (r r' : Runtime) (g : Stage) (q q' : Request) (qs : List Request)
    → RequestMoves r q r' q'
    → IsOrderly r g (q ∷ qs)
    → IsOrderly r' g (q' ∷ qs)
unfolding request_admission request_cleanup count
request-IsOrderly r r' g q q' qs (arrives path) h = record {
  active = ground (arith, h.active);
  draining = λ e. ground (arith, h.draining e);
  none_left = λ e. ground (arith, h.none_left e, h.draining (begun_before g e));
}
request-IsOrderly r r' g q q' qs cleans_up h = record {
  active = omega (arith, h.active);
  draining = h.draining;
  none_left = λ e. omega (arith, h.none_left e);
}
request-IsOrderly r r' g q q' qs ends h = record {
  active = h.active;
  draining = h.draining;
  none_left = h.none_left;
}

shutdown-IsOrderly :
    (r r' : Runtime) (g g' : Stage) (qs : List Request)
    → ShutdownMoves r g r' g'
    → IsOrderly r g qs
    → IsOrderly r' g' qs
unfolding begin_drain
shutdown-IsOrderly r r' g g' qs begins h = record {
  active = h.active;
  draining = λ e. refl;
  none_left = λ e. cc;
}
shutdown-IsOrderly r r' g g' qs (waits z) h = record {
  active = h.active;
  draining = λ e. h.draining refl;
  none_left = λ e. z;
}
shutdown-IsOrderly r r' g g' qs closes h = record {
  active = h.active;
  draining = h.draining;
  none_left = h.none_left;
}

module _ (r : Runtime) (g : Stage) (xs : List Request) (q : Request) (ys : List Request) where
  IsOrderly-out : IsOrderly r g (xs ++ (q ∷ ys)) → IsOrderly r g (q ∷ (xs ++ ys))
  IsOrderly-out h = record {
    active = h.active ∙ count-middle is_counted xs q ys;
    draining = h.draining;
    none_left = h.none_left;
  }

  IsOrderly-in : IsOrderly r g (q ∷ (xs ++ ys)) → IsOrderly r g (xs ++ (q ∷ ys))
  IsOrderly-in h = record {
    active = h.active ∙ sym (count-middle is_counted xs q ys);
    draining = h.draining;
    none_left = h.none_left;
  }

Reachable-IsOrderly : (s : System) → Reachable s → IsOrderly s.runtime s.stage s.requests
unfolding new_runtime begin_drain
Reachable-IsOrderly s (starts paths) = record {
  active = sym (none_counted paths);
  draining = λ e. cc;
  none_left = λ e. refl;
}
Reachable-IsOrderly s (initializes past) =
    let h = Reachable-IsOrderly _ past in
    record { active = h.active; draining = h.draining; none_left = h.none_left }
Reachable-IsOrderly s (drains past) =
    let h = Reachable-IsOrderly _ past in
    record { active = h.active; draining = λ e. refl; none_left = h.none_left }
Reachable-IsOrderly s (moves {r} {r'} {q} {q'} {g} before after past m) =
    IsOrderly-in r' g before q' after (
      request-IsOrderly r r' g q q' (before ++ after) m
        (IsOrderly-out r g before q after (Reachable-IsOrderly _ past)))
Reachable-IsOrderly s (shuts_down {r} {r'} {g} {g'} {qs} past m) =
    shutdown-IsOrderly r r' g g' qs m (Reachable-IsOrderly _ past)

-- However the steps of any number of requests interleave with Shutdown and with calls of BeginDrain,
-- once Shutdown's wait is over no admitted request is running, then or later, and the server is not
-- ready.
pub shutdown_after_requests :
    (s : System)
    → Reachable s
    → has_waited s.stage ≡ true
    → (count is_counted s.requests ≡ 0) × (is_ready s.runtime ≡ false)
unfolding is_ready
shutdown_after_requests s past e =
    let h = Reachable-IsOrderly s past in
    (omega (arith, h.active, h.none_left e), ground (arith, h.draining (begun_before s.stage e)))

-- ===== src/Problem/Sound.antt =====
-- The invariant of a stored problem with its tickets, and the writes that keep it.
use training_center_back.Prelude.{
  ℕ, Bool, true, false, List, [], ◌∷◌, ◌≡◌, refl, ap, arith, ◌||◌, ◌&&◌, not, All, if-cases, ltb,
}
use training_center_back.Problem.Aggregate.{Problem, is_published}
use training_center_back.Problem.Tickets.{
  ProblemValidation, is_final, running, is_running, recover_stale_before, recovered, find_latest,
}
use training_center_back.Problem.Store.{Store, in_flight}
use training_center_back.Problem.Orderly.{Orderly, Behind, find_latest-Orderly, replaced-Orderly}
use training_center_back.Problem.Opens.{Opened-Orderly, ended}
use training_center_back.Problem.Requests.{Asked, kept, opened}
use training_center_back.Problem.Edits.{Guarded}
use training_center_back.Problem.Completeness.{is_complete, Advances}
use training_center_back.Problem.Closings.{Ran}

-- A ticket that will publish the problem waits or runs only while the problem is complete.
unfoldable pub ready : List ProblemValidation → Problem → Bool
ready [] p = true
ready (v ∷ vs) p = is_final v.status || (not v.publish_on_pass || is_complete p)

pub record Sound (s : Store) : Type 0 where
  pub orderly : Orderly s.tickets
  pub shown : (not (is_published s.problem) || is_complete s.problem) ≡ true
  pub prepared : ready s.tickets s.problem ≡ true

pub Advances-Sound :
    (s : Store) (q : Problem) (allowed : Bool)
    → Sound s
    → (not allowed || is_complete s.problem) ≡ true
    → Advances allowed s.problem q
    → Sound (record s { problem = q })
Advances-Sound s q allowed i c a = record {
  orderly = i.orderly;
  shown = ground (arith, i.shown, a.shown, a.complete);
  prepared = readied s.tickets i.prepared;
}
  where
    readied : (ts : List ProblemValidation) → ready ts s.problem ≡ true → ready ts q ≡ true
    readied [] r = unfold ready in refl
    readied (v ∷ vs) r = unfold ready in ground (arith, a.complete)

pub Asked-Sound : (s t : Store) → Sound s → Asked s t → Sound t
Asked-Sound s _ i (kept q a) = Advances-Sound s q (is_complete s.problem) i (ground arith) a
Asked-Sound s _ i (opened u o c) = record {
  orderly = Opened-Orderly s.tickets u i.orderly o;
  shown = i.shown;
  prepared = unfold ready in ground (arith, c);
}

quiet-ended :
    (ts : List ProblemValidation)
    → Orderly ts
    → in_flight (find_latest ts) ≡ false
    → ended ts ≡ true
quiet-ended [] o h = refl
quiet-ended (v ∷ vs) o h = ground (arith, find_latest-Orderly v vs o)

ended-ready : (ts : List ProblemValidation) (q : Problem) → ended ts ≡ true → ready ts q ≡ true
unfolding ready
ended-ready [] q e = refl
ended-ready (v ∷ vs) q e = ground arith

pub Guarded-Sound :
    (s : Store) (q : Problem) → Sound s → Guarded s q → Sound (record s { problem = q })
Guarded-Sound s q i g = record {
  orderly = i.orderly;
  shown = ground (arith, g.drafted);
  prepared = ended-ready s.tickets q (quiet-ended s.tickets i.orderly g.quiet);
}

pub Ran-Sound :
    (faulty : Bool) (v : ProblemValidation) (rest : List ProblemValidation) (p : Problem)
    (s : Store)
    → Sound (record { problem = p; tickets = v ∷ rest })
    → v.status ≡ running
    → Ran faulty v rest p s
    → Sound s
unfolding ready
Ran-Sound faulty v rest p s i h r = record {
  orderly = rw r.tickets (replaced-Orderly r.last v rest i.orderly r.same_id r.same_at);
  shown = ground (arith, ap is_final h, i.prepared, i.shown, r.problem.shown, r.problem.complete);
  prepared =
      rw r.tickets (ground (arith, ap is_final h, i.prepared, r.problem.complete, r.same_flag));
}

pub recover-ended :
    (cutoff now : ℕ) (v : ProblemValidation) (vs : List ProblemValidation)
    → All (Behind v) vs
    → recover_stale_before cutoff now vs ≡ vs
unfolding recover_stale_before Orderly
recover-ended cutoff now v [] b = refl
recover-ended cutoff now v (w ∷ ws) b = ground (arith, b.0.ended, recover-ended cutoff now v ws b.1)

-- The sweep ends the last ticket, or leaves the table.
pub recover-Sound :
    (cutoff now : ℕ) (s : Store)
    → Sound s
    → Sound (record s { tickets = recover_stale_before cutoff now s.tickets })
unfolding recover_stale_before Orderly
recover-Sound cutoff now s i = swept s.tickets i.orderly i.prepared
  where
    swept :
        (ts : List ProblemValidation)
        → Orderly ts
        → ready ts s.problem ≡ true
        → Sound (record s { tickets = recover_stale_before cutoff now ts })
    swept [] o r = record { orderly = o; shown = i.shown; prepared = r }
    swept (v ∷ vs) o r = rw (recover-ended cutoff now v vs o) (
        if-cases (λ rows. Sound (record s { tickets = rows }))
          (is_running v.status && ltb v.requested_at cutoff)
          (λ h. record {
            orderly = replaced-Orderly (recovered now v) v vs o refl refl;
            shown = i.shown;
            prepared = unfold ready in refl;
          })
          (λ h. record { orderly = o; shown = i.shown; prepared = r }))

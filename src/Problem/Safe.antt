-- ===== src/Problem/Safe.antt =====
-- The invariant of the runs and the table, along the steps of Problem/Steps that do not end a run.
use training_center_back.Prelude.{
  String, true, false, Option, none, some, List, ◌∷◌, ◌≡◌, refl, ap, arith, ◌⊎◌, inl, inr, subst,
  if-cases,
}
use training_center_back.Apperror.{Error, Result, ok, err, Result-cases}
use training_center_back.Problem.Aggregate.{Problem, is_published}
use training_center_back.Problem.Tickets.{
  ProblemValidation, is_final, is_pending, pending, running, start, find_by_id,
}
use training_center_back.Problem.Store.{Store}
use training_center_back.Problem.Checks.{Workbench, store_ticket}
use training_center_back.Problem.Worker.{begin, begin_found, held_if}
use training_center_back.Problem.Orderly.{replaced-Orderly}
use training_center_back.Problem.Begins.{found-head, started, started-saved, started-Orderly}
use training_center_back.Problem.Opens.{Opened-Orderly, ended}
use training_center_back.Problem.Requests.{Asked, kept, opened}
use training_center_back.Problem.Edits.{
  update_problem-Guarded, delete_problem_file-Guarded, upload_on_draft-Guarded,
  change_accessibility-Advances, unpublish_problem-Advances, add_problem_modifier-Advances,
  remove_problem_modifier-Advances,
}
use training_center_back.Problem.Sound.{Sound, ready, Advances-Sound, Guarded-Sound}
use training_center_back.Problem.Staging.{Staged, same, waiting, closed}
use training_center_back.Problem.Steps.{
  World, Edit, update, delete_file, unpublish, set_accessibility, add, remove, upload, taken,
}

-- A ticket that a run holds is the last row, and running.
unfoldable pub Holds : Option ProblemValidation → List ProblemValidation → Type 0
Holds none ts = Unit
Holds (some v) ts = (rest : List ProblemValidation) × (ts ≡ v ∷ rest) × (v.status ≡ running)

pub record IsSafe (w : World) : Type 0 where
  pub sound : Sound w.store
  pub holds : Holds w.held w.store.tickets

pub Edit-Sound :
    (s : Store) (r : Result Problem) (q : Problem)
    → Sound s
    → Edit s r
    → r ≡ ok q
    → Sound (record s { problem = q })
Edit-Sound s _ q i (update env caller raw input) h =
    Guarded-Sound s q i (update_problem-Guarded env caller raw input s q h)
Edit-Sound s _ q i (delete_file env caller raw file_type name) h =
    Guarded-Sound s q i (delete_problem_file-Guarded env caller raw file_type name s q h)
Edit-Sound s _ q i (unpublish env caller raw) h =
    Advances-Sound s q false i refl (unpublish_problem-Advances env caller raw s q h)
Edit-Sound s _ q i (set_accessibility env caller raw value) h =
    Advances-Sound s q false i refl (change_accessibility-Advances env caller raw value s q h)
Edit-Sound s _ q i (add env caller raw nickname) h =
    Advances-Sound s q false i refl (add_problem_modifier-Advances env caller raw nickname s q h)
Edit-Sound s _ q i (remove env caller raw nickname) h =
    Advances-Sound s q false i refl (remove_problem_modifier-Advances env caller raw nickname s q h)
Edit-Sound s _ q i (upload env caller file_type name draft) h =
    Guarded-Sound s q i (upload_on_draft-Guarded env caller s.problem file_type name s q draft h)

-- A ticket that is opened finds no run.
Holds-ended :
    (held : Option ProblemValidation) (ts us : List ProblemValidation)
    → Holds held ts
    → ended ts ≡ true
    → Holds held us
unfolding Holds
Holds-ended none ts us h e = tt
Holds-ended (some v) ts us h e = absurd (ground (arith, h.1, h.2))

pub Asked-Holds :
    (held : Option ProblemValidation) (s t : Store)
    → Asked s t
    → Holds held s.tickets
    → Holds held t.tickets
Asked-Holds held s _ (kept q a) h = h
Asked-Holds held s _ (opened u o c) h = Holds-ended held s.tickets (u ∷ s.tickets) h o.alone

pub Staged-Holds :
    (held : Option ProblemValidation) (s t : Store)
    → Staged s t
    → Holds held s.tickets
    → Holds held t.tickets
Staged-Holds held s _ same h = h
Staged-Holds held s _ (waiting u o) h = Holds-ended held s.tickets (u ∷ s.tickets) h o.alone
Staged-Holds held s _ (closed u last o i t f) h =
    Holds-ended held s.tickets (last ∷ s.tickets) h o.alone

pub Staged-Sound : (s t : Store) → Sound s → is_published s.problem ≡ true → Staged s t → Sound t
unfolding ready
Staged-Sound s _ i d same = i
Staged-Sound s _ i d (waiting u o) = record {
  orderly = Opened-Orderly s.tickets u i.orderly o;
  shown = i.shown;
  prepared = ground (arith, i.shown, d);
}
Staged-Sound s _ i d (closed u last o k t f) = record {
  orderly = replaced-Orderly last u s.tickets (Opened-Orderly s.tickets u i.orderly o) k t;
  shown = i.shown;
  prepared = ground (arith, f);
}

abbrev Begins : World → Result (Option ProblemValidation) × Store → Type 0
Begins w done = IsSafe (record w { store = done.1; held = taken done.0 w.held })

-- A run that starts its ticket.
module _ (w : World) (env : Workbench) (v u : ProblemValidation) (vs : List ProblemValidation)
    (i : IsSafe w) (e : w.store.tickets ≡ v ∷ vs) (h : start v ≡ ok u) where
  start_facts : (v.status ≡ pending) × (u ≡ record v { status = running })
  start_facts = started w.store.tickets i.sound.orderly v u vs e h

  started-Sound : Sound (record w.store { tickets = u ∷ vs })
  unfolding ready
  started-Sound = record {
    orderly = started-Orderly w.store.tickets i.sound.orderly v u vs e h;
    shown = i.sound.shown;
    prepared = prepared (subst (λ ts. ready ts w.store.problem ≡ true) e i.sound.prepared);
  }
    where
      prepared : ready (v ∷ vs) w.store.problem ≡ true → ready (u ∷ vs) w.store.problem ≡ true
      prepared r =
          ground (arith, ap is_final start_facts.0, ap (λ t. t.publish_on_pass) start_facts.1)

  store-Begins : (fault : Option Error) → Begins w (held_if u (store_ticket fault u w.store))
  unfolding store_ticket Holds
  store-Begins (some f) = i
  store-Begins none =
      rw (started-saved w.store.tickets i.sound.orderly v u vs e h)
        (record { sound = started-Sound; holds = (vs, refl, ap (λ t. t.status) start_facts.1) })

pub IsSafe-begins :
    (w : World) (env : Workbench) (id : String)
    → IsSafe w
    → IsSafe (record w {
      store = (begin env id w.store).1;
      held = taken (begin env id w.store).0 w.held;
    })
unfolding begin begin_found
IsSafe-begins w env id i = elim (Result-cases (find_by_id id w.store.tickets)) [
  | inl (e, h) ↦ rw (h, begin) i
  | inr (v, h) ↦ rw (h, begin) (found v h)
]
  where
    found :
        (v : ProblemValidation)
        → find_by_id id w.store.tickets ≡ ok v
        → Begins w (begin_found env v w.store)
    found v h =
        if-cases (Begins w) (is_pending v.status) (λ p. starting v h p (Result-cases (start v)))
          (λ p. i)
      where
        starting :
            (v : ProblemValidation)
            → find_by_id id w.store.tickets ≡ ok v
            → is_pending v.status ≡ true
            → ((e : Error) × (start v ≡ err e)) ⊎ ((u : ProblemValidation) × (start v ≡ ok u))
            → Begins w (elim (start v) [
              | err e ↦ (err e, w.store)
              | ok u ↦ held_if u (store_ticket env.start_fault u w.store)
            ])
        starting v h p (inl (e, x)) = rw x i
        starting v h p (inr (u, x)) =
            rw x (head (found-head id w.store.tickets v i.sound.orderly h (ground arith)))
          where
            head :
                (vs : List ProblemValidation) × (w.store.tickets ≡ v ∷ vs)
                → Begins w (held_if u (store_ticket env.start_fault u w.store))
            head (vs, e) = store-Begins w env v u vs i e x env.start_fault

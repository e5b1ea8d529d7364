-- ===== src/Group/Approvals.antt =====
-- An approved request is used once.
use training_center_back.Prelude.{
  str_eq_refl, ◌≢◌, inl, inr, sym, String, true, false, Option, none, some, List, [], ◌∷◌, ◌≡◌,
  refl, str_eq_iff, subst, sym, arith,
}
use training_center_back.Apperror.{Result-cases, ok, is_ok, ◌>>=◌, >>=-ok}
use training_center_back.Group.Members.{
  MemberRole, member, GroupMember, new_group_member, find_by_group_and_user,
}
use training_center_back.Group.Operations.{CurrentUser}
use training_center_back.Group.Requests.{
  JoinRequest, JoinRequestStatus, approved, waits, find_request, set_status, save_request, approve,
}
use training_center_back.Group.Joining.{
  load_request, approve_request, admit_requester, Joins, Joiner, save_member, require_outsider,
  new_row,
}
use training_center_back.Group.Enrolments.{Enrolled}

-- The row of a request after its status is set.
find-set_status :
    (id : String) (status : JoinRequestStatus) (rs : List JoinRequest) (r : JoinRequest)
    → find_request id rs ≡ some r
    → find_request id (set_status id status rs) ≡ some (record r { status = status })
unfolding find_request set_status
find-set_status id status [] r h = cc
find-set_status id status (x ∷ rs) r h = ground (arith, find-set_status id status rs r)

find_request-id :
    (id : String) (rs : List JoinRequest) (r : JoinRequest)
    → find_request id rs ≡ some r
    → r.id ≡ id
unfolding find_request
find_request-id id [] r h = cc
find_request-id id (x ∷ rs) r h = ground (arith, find_request-id id rs r, str_eq_iff x.id id)

-- The row of a request that is saved has its status, whatever it had.
save_request-find :
    (r : JoinRequest) (rs rows : List JoinRequest)
    → save_request r rs ≡ ok rows
    → (last : JoinRequest) × (find_request r.id rows ≡ some last) × (last.status ≡ r.status)
unfolding save_request
save_request-find r rs rows k = cases (find_request r.id rs) refl
  where
    cases :
        (o : Option JoinRequest)
        → find_request r.id rs ≡ o
        → (last : JoinRequest) × (find_request r.id rows ≡ some last) × (last.status ≡ r.status)
    cases none h = (r, unfold find_request in ground (arith, h, k, str_eq_refl r.id), refl)
    cases (some x) h = (
      record x { status = r.status },
      ground (arith, h, k, find-set_status r.id r.status rs x h),
      refl,
    )

-- The request that an approval went through.
loaded :
    (env : Joiner) (caller : CurrentUser) (g id : String) (s : Joins) (r : JoinRequest)
    → load_request env caller g id s ≡ ok r
    → (find_request id s.requests ≡ some r) × (r.group_id ≡ g)
unfolding load_request
loaded env caller g id s r h = (ground arith, ground (arith, str_eq_iff r.group_id g))

approve-ok :
    (r done : JoinRequest)
    → approve r ≡ ok done
    → (waits r.status ≡ true) × (done ≡ record r { status = approved })
unfolding approve
approve-ok r done h = (ground arith, ground arith)

record Admitted (r : JoinRequest) (m : GroupMember) (s t : Joins) : Type 0 where
  added : t.members ≡ m ∷ s.members
  stored : save_request r s.requests ≡ ok t.requests
  absent : find_by_group_and_user m.group_id m.user_id s.members ≡ none

admit_requester-Admitted :
    (env : Joiner) (r : JoinRequest) (m : GroupMember) (s t : Joins)
    → admit_requester env r m s ≡ ok t
    → Admitted r m s t
unfolding admit_requester require_outsider save_member
admit_requester-Admitted env r m s t h = record {
  added = ground arith;
  stored = ground arith;
  absent = ground arith;
}

-- An approval: what it read in `s`, and what its transaction, which found `u`, left in `t`.
pub record Approval (env : Joiner) (g id : String) (s u t : Joins) : Type 0 where
  pub request : JoinRequest
  pub found : find_request id s.requests ≡ some request
  pub waited : waits request.status ≡ true
  pub enrolled : Enrolled env g request.requester_user_id member u t
  pub last : JoinRequest
  pub listed : find_request id t.requests ≡ some last
  pub closed : last.status ≡ approved

new_row-ok :
    (env : Joiner) (g u : String) (role : MemberRole) (method : String) (by : Option String)
    (m : GroupMember)
    → new_row env g u role method by ≡ ok m
    → (m.group_id ≡ g) × (m.user_id ≡ u) × (m.role ≡ role)
unfolding new_row new_group_member
new_row-ok env g u role method by m h = (ground arith, ground arith, ground arith)

approved-Approval :
    (env : Joiner) (g id : String) (s u t : Joins) (r : JoinRequest) (m : GroupMember)
    → find_request id s.requests ≡ some r
    → waits r.status ≡ true
    → (m.group_id ≡ g) × (m.user_id ≡ r.requester_user_id) × (m.role ≡ member)
    → Admitted (record r { status = approved }) m u t
    → Approval env g id s u t
approved-Approval env g id s u t r m f w (eg, eu, er) a = record {
  request = r;
  found = f;
  waited = w;
  enrolled = record {
    new = m;
    added = a.added;
    same_group = eg;
    same_user = eu;
    same_role = er;
    absent =
        subst (λ x. find_by_group_and_user g x u.members ≡ none) eu
          (subst (λ x. find_by_group_and_user x m.user_id u.members ≡ none) eg a.absent);
  };
  last = row.0;
  listed =
      subst (λ x. find_request x t.requests ≡ some row.0) (find_request-id id s.requests r f) row.1;
  closed = row.2;
}
  where
    row :
        (last : JoinRequest) × (find_request r.id t.requests ≡ some last) × (last.status ≡ approved)
    row = save_request-find (record r { status = approved }) u.requests t.requests a.stored

approve_request-Approval :
    (env : Joiner) (caller : CurrentUser) (g id : String) (s t : Joins)
    → approve_request env caller g id s ≡ ok t
    → Approval env g id s (env.meanwhile s) t
unfolding approve_request
approve_request-Approval env caller g id s t h = from (>>=-ok (load_request env caller g id s) h)
  where
    from :
        (r : JoinRequest) × (load_request env caller g id s ≡ ok r)
          × ((approve r >>= λ done.
                new_row env g done.requester_user_id member "REQUEST_APPROVED" none >>= λ m.
                admit_requester env done m (env.meanwhile s))
              ≡ ok t)
        → Approval env g id s (env.meanwhile s) t
    from (r, l, k) = after (>>=-ok (approve r) k)
      where
        after :
            (done : JoinRequest) × (approve r ≡ ok done)
              × ((new_row env g done.requester_user_id member "REQUEST_APPROVED" none >>= λ m.
                    admit_requester env done m (env.meanwhile s))
                  ≡ ok t)
            → Approval env g id s (env.meanwhile s) t
        after (done, a, k2) = last (
            subst
              (λ d.
                (new_row env g d.requester_user_id member "REQUEST_APPROVED" none >>= λ m.
                admit_requester env d m (env.meanwhile s))
                ≡ ok t)
              (approve-ok r done a).1 k2)
          where
            last :
                (new_row env g r.requester_user_id member "REQUEST_APPROVED" none >>= λ m.
                admit_requester env (record r { status = approved }) m (env.meanwhile s))
                  ≡ ok t
                → Approval env g id s (env.meanwhile s) t
            last k3 =
                let (m, n, k4) =
                  >>=-ok (new_row env g r.requester_user_id member "REQUEST_APPROVED" none) k3 in
                approved-Approval env g id s (env.meanwhile s) t r m
                  (loaded env caller g id s r l).0 (approve-ok r done a).0
                  (new_row-ok env g r.requester_user_id member "REQUEST_APPROVED" none m n)
                  (admit_requester-Admitted env (record r { status = approved }) m (env.meanwhile s)
                    t k4)

-- A request that no longer waits cannot be approved.
approve_request-closed :
    (env : Joiner) (caller : CurrentUser) (g id : String) (s : Joins) (r : JoinRequest)
    → find_request id s.requests ≡ some r
    → waits r.status ≡ false
    → is_ok (approve_request env caller g id s) ≡ false
unfolding approve_request load_request approve
approve_request-closed env caller g id s r f w = rw f (ground (arith, w))

-- A row that was added is found.
Enrolled-found :
    (env : Joiner) (g u : String) (role : MemberRole) (s t : Joins)
    → Enrolled env g u role s t
    → find_by_group_and_user g u t.members ≢ none
unfolding find_by_group_and_user
Enrolled-found env g u role s t e h =
    absurd (ground (arith, e.added, e.same_group, e.same_user, h, str_eq_refl g, str_eq_refl u))

-- An approval that succeeds read a waiting request; whatever came before its transaction, that adds
-- one row to the members it finds, the requester, who had none, as a member of the group, and leaves
-- the row of the request approved. An approval that read the request at the same time, and whose
-- transaction finds the tables that this one left, fails; and so does one that reads them.
pub approve_request-once :
    (env other : Joiner) (caller second : CurrentUser) (g h id : String) (s t : Joins)
    → approve_request env caller g id s ≡ ok t
    → other.meanwhile s ≡ t
    → (Approval env g id s (env.meanwhile s) t)
      × (is_ok (approve_request other second g id s) ≡ false)
      × (is_ok (approve_request other second h id t) ≡ false)
approve_request-once env other caller second g h id s t e later = (a, stale, again)
  where
    a : Approval env g id s (env.meanwhile s) t
    a = approve_request-Approval env caller g id s t e

    clash : (u : Joins) → Approval other g id s (other.meanwhile s) u → ⊥
    clash u b =
        Enrolled-found env g a.request.requester_user_id member (env.meanwhile s) t a.enrolled (
          rw same (
            subst (λ x. find_by_group_and_user g b.request.requester_user_id x.members ≡ none) later
              b.enrolled.absent))
      where
        same : a.request.requester_user_id ≡ b.request.requester_user_id
        same = ground (arith, a.found, b.found)

    stale : is_ok (approve_request other second g id s) ≡ false
    stale = elim (Result-cases (approve_request other second g id s)) [
      | inl (f, x) ↦ rw x refl
      | inr (u, x) ↦ absurd (clash u (approve_request-Approval other second g id s u x))
    ]

    again : is_ok (approve_request other second h id t) ≡ false
    again =
        approve_request-closed other second h id t a.last a.listed
          (subst (λ x. waits x ≡ false) (sym a.closed) refl)

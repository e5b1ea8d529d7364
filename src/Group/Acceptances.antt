-- ===== src/Group/Acceptances.antt =====
-- An accepted invitation with an invitee is used once.
use training_center_back.Prelude.{
  String, Bool, true, false, none, List, [], ◌∷◌, ◌≡◌, refl, str_eq_iff, is_some, subst, sym, arith,
  inl, inr, not, if◌then◌else◌, ◌&&◌,
}
use training_center_back.Apperror.{
  Result, ok, err, is_ok, conflict, bad_request, forbidden, fail_if, ◌>>=◌, ◌>>◌, >>=-ok,
  Result-cases,
}
use training_center_back.Group.Members.{member}
use training_center_back.Group.Operations.{CurrentUser, query}
use training_center_back.Group.Policies.{Group, takes_invites}
use training_center_back.Group.Invitations.{
  GroupInvitation, InvitationStatus, accepted, stands, find_invitation, move_pending,
  transition_pending, accept, is_past, invitation_not_pending_code,
}
use training_center_back.Group.Joining.{
  check_invitation, accept_checked, accept_invite, admit_invitee, consume, committed, settled,
  expire_row, Joins, Joiner, enrol,
}
use training_center_back.Group.Enrolments.{Enrolled, enrol-Enrolled, enrol-invitations}

find-move_pending :
    (id : String) (status : InvitationStatus) (is : List GroupInvitation) (i : GroupInvitation)
    → find_invitation id is ≡ ok i
    → stands i.status ≡ true
    → find_invitation id (move_pending id status is) ≡ ok (record i { status = status })
unfolding find_invitation move_pending
find-move_pending id status [] i h w = cc
find-move_pending id status (x ∷ is) i h w = ground (arith, find-move_pending id status is i)

find_invitation-id :
    (id : String) (is : List GroupInvitation) (i : GroupInvitation)
    → find_invitation id is ≡ ok i
    → i.id ≡ id
unfolding find_invitation
find_invitation-id id [] i h = cc
find_invitation-id id (x ∷ is) i h = ground (arith, find_invitation-id id is i, str_eq_iff x.id id)

-- What AcceptInvite checked.
record Invited (caller : CurrentUser) (g id : String) (s : Joins) (i : GroupInvitation)
    : Type 0 where
  listed : find_invitation id s.invitations ≡ ok i
  of_group : i.group_id ≡ g
  stood : stands i.status ≡ true

check_invitation-Invited :
    (env : Joiner) (caller : CurrentUser) (g id : String) (s : Joins) (i : GroupInvitation)
    → check_invitation env caller g id s ≡ ok i
    → Invited caller g id s i
unfolding check_invitation
check_invitation-Invited env caller g id s i h = record {
  listed = ground arith;
  of_group = ground (arith, str_eq_iff i.group_id g);
  stood = ground arith;
}

-- The transaction adds the caller, and uses up an invitation with an invitee.
record Accepted (env : Joiner) (caller : CurrentUser) (i : GroupInvitation) (s t : Joins)
    : Type 0 where
  enrolled : Enrolled env i.group_id caller.id member s t
  current : GroupInvitation
  listed : find_invitation i.id s.invitations ≡ ok current
  stood : stands current.status ≡ true
  used :
      is_some i.invitee_id ≡ true
      → transition_pending i.id accepted s.invitations ≡ ok t.invitations

consume-facts :
    (env : Joiner) (i : GroupInvitation) (s t : Joins)
    → consume env i s ≡ ok t
    → (t.members ≡ s.members)
      × (is_some i.invitee_id ≡ true
          → transition_pending i.id accepted s.invitations ≡ ok t.invitations)
unfolding consume
consume-facts env i s t h = (ground arith, λ some_one. ground (arith, some_one))

transition_pending-find :
    (id : String) (status : InvitationStatus) (is rows : List GroupInvitation) (i : GroupInvitation)
    → find_invitation id is ≡ ok i
    → stands i.status ≡ true
    → transition_pending id status is ≡ ok rows
    → find_invitation id rows ≡ ok (record i { status = status })
unfolding transition_pending
transition_pending-find id status is rows i h w k =
    ground (arith, h, w, k, find-move_pending id status is i h w)

-- An invitation that no longer stands cannot be accepted.
accept_invite-closed :
    (env : Joiner) (caller : CurrentUser) (g id : String) (s : Joins) (i : GroupInvitation)
    → find_invitation id s.invitations ≡ ok i
    → stands i.status ≡ false
    → is_ok (accept_invite env caller g id s).0 ≡ false
unfolding accept_invite accept_checked
accept_invite-closed env caller g id s i f w =
    elim (Result-cases (check_invitation env caller g id s)) [
      | inl (e, h) ↦ rw h refl
      | inr (j, h) ↦ absurd (clash j (check_invitation-Invited env caller g id s j h))
    ]
  where
    clash : (j : GroupInvitation) → Invited caller g id s j → ⊥
    clash j c = ground (arith, f, w, c.listed, c.stood)

admit_invitee-Accepted :
    (env : Joiner) (caller : CurrentUser) (i : GroupInvitation) (s t : Joins)
    → admit_invitee env caller i s ≡ ok t
    → Accepted env caller i s t
unfolding admit_invitee
admit_invitee-Accepted env caller i s t h =
    let (current, q, k) =
      >>=-ok (query env.invitation_fault s.invitations >>= find_invitation i.id) h in
    let (found, q2, k2) =
      >>=-ok
        (fail_if (not (stands current.status))
            (conflict (invitation_not_pending_code current.status))
          >> env.find_group i.group_id)
        k in
    let (v, q3, k3) =
      >>=-ok
        (fail_if (not (takes_invites found.join_policy)) (forbidden "INSUFFICIENT_PERMISSIONS")
          >> enrol env i.group_id caller.id member "INVITATION" none s
          >>= consume env i)
        k2 in
    let (u, q4, k4) =
      >>=-ok
        (fail_if (not (takes_invites found.join_policy)) (forbidden "INSUFFICIENT_PERMISSIONS")
          >> enrol env i.group_id caller.id member "INVITATION" none s)
        q3 in
    built current found u v q q2 q4 k4 k3
  where
    built :
        (current : GroupInvitation) (found : Group) (u v : Joins)
        → (query env.invitation_fault s.invitations >>= find_invitation i.id) ≡ ok current
        → (fail_if
              (not (stands current.status))
              (conflict (invitation_not_pending_code current.status))
            >> env.find_group i.group_id)
          ≡ ok found
        → (fail_if (not (takes_invites found.join_policy)) (forbidden "INSUFFICIENT_PERMISSIONS")
            >> enrol env i.group_id caller.id member "INVITATION" none s)
          ≡ ok u
        → consume env i u ≡ ok v
        → committed env.commit_fault v ≡ ok t
        → Accepted env caller i s t
    built current found u v a b c d e = record {
      enrolled = record {
        new = new.new;
        added = rw (sym same, (consume-facts env i u v d).0) new.added;
        same_group = new.same_group;
        same_user = new.same_user;
        same_role = new.same_role;
        absent = new.absent;
      };
      current = current;
      listed = ground (arith, a);
      stood = ground (arith, b);
      used = λ some_one.
          rw
            (
              sym same,
              sym (enrol-invitations env i.group_id caller.id member "INVITATION" none s u entered),
            )
            ((consume-facts env i u v d).1 some_one);
    }
      where
        same : v ≡ t
        same = ground (arith, e)

        entered : enrol env i.group_id caller.id member "INVITATION" none s ≡ ok u
        entered = ground (arith, c)

        new : Enrolled env i.group_id caller.id member s u
        new = enrol-Enrolled env i.group_id caller.id member "INVITATION" none s u entered

settled-ok : (s t : Joins) (r : Result Joins) → settled s r ≡ (ok tt, t) → r ≡ ok t
settled-ok s t (err e) h = cc
settled-ok s t (ok u) h = cc

-- An acceptance that succeeds went into the transaction.
accept_checked-ok :
    (env : Joiner) (caller : CurrentUser) (s t : Joins) (i : GroupInvitation)
    → accept_checked env caller s (ok i) ≡ (ok tt, t)
    → admit_invitee env caller (record i { status = accepted }) (env.meanwhile s) ≡ ok t
unfolding accept_checked accept
accept_checked-ok env caller s t i h = on_time (is_past env.now i) h
  where
    on_time :
        (b : Bool)
        → (if b
            then (err (bad_request "INVITATION_EXPIRED"), expire_row env i s)
            else settled
                (env.meanwhile s)
                (accept i >>= λ taken. admit_invitee env caller taken (env.meanwhile s)))
          ≡ (ok tt, t)
        → admit_invitee env caller (record i { status = accepted }) (env.meanwhile s) ≡ ok t
    on_time true x = cc
    on_time false x = entered (settled-ok (env.meanwhile s) t _ x)
      where
        entered :
            (accept i >>= λ taken. admit_invitee env caller taken (env.meanwhile s)) ≡ ok t
            → admit_invitee env caller (record i { status = accepted }) (env.meanwhile s) ≡ ok t
        entered y = ground arith

-- An acceptance, from the tables that the transaction found.
pub record Acceptance (env : Joiner) (caller : CurrentUser) (g id : String) (s t : Joins)
    : Type 0 where
  pub invitation : GroupInvitation
  pub listed : find_invitation id s.invitations ≡ ok invitation
  pub stood : stands invitation.status ≡ true
  pub enrolled : Enrolled env g caller.id member (env.meanwhile s) t

-- An invitation with an invitee is used up.
abbrev Uses : GroupInvitation → String → Joins → Type 0
Uses i id t =
    is_some i.invitee_id ≡ true
    → (last : GroupInvitation) × (find_invitation id t.invitations ≡ ok last)
      × (stands last.status ≡ false)

accept_invite-Acceptance :
    (env : Joiner) (caller : CurrentUser) (g id : String) (s t : Joins)
    → accept_invite env caller g id s ≡ (ok tt, t)
    → (a : Acceptance env caller g id s t) × Uses a.invitation id t
unfolding accept_invite accept_checked
accept_invite-Acceptance env caller g id s t h = from (check_invitation env caller g id s) refl h
  where
    from :
        (r : Result GroupInvitation)
        → check_invitation env caller g id s ≡ r
        → accept_checked env caller s r ≡ (ok tt, t)
        → (a : Acceptance env caller g id s t) × Uses a.invitation id t
    from (err e) k x = cc
    from (ok i) k x = (
      record {
        invitation = i;
        listed = c.listed;
        stood = c.stood;
        enrolled =
            subst (λ y. Enrolled env y caller.id member (env.meanwhile s) t) c.of_group a.enrolled;
      },
      λ some_one. (
        record a.current { status = accepted },
        subst (λ y. find_invitation y t.invitations ≡ ok (record a.current { status = accepted }))
            (find_invitation-id id s.invitations i c.listed)
            (transition_pending-find i.id accepted (env.meanwhile s).invitations t.invitations
              a.current a.listed a.stood (a.used some_one)),
        refl,
      ),
    )
      where
        c : Invited caller g id s i
        c = check_invitation-Invited env caller g id s i k

        a : Accepted env caller (record i { status = accepted }) (env.meanwhile s) t
        a =
            admit_invitee-Accepted env caller (record i { status = accepted }) (env.meanwhile s) t
              (accept_checked-ok env caller s t i x)

-- An acceptance that succeeds finds an invitation of the group that stands, and adds one row to the
-- members that its transaction finds, whatever came in between: the caller, who had none, as a
-- member. If the invitation has an invitee, it is closed, and every later acceptance of it fails,
-- whatever the other repositories answer.
pub accept_invite-once :
    (env other : Joiner) (caller second : CurrentUser) (g h id : String) (s t : Joins)
    → accept_invite env caller g id s ≡ (ok tt, t)
    → (a : Acceptance env caller g id s t) × ((is_some a.invitation.invitee_id
          && is_ok (accept_invite other second h id t).0)
        ≡ false)
accept_invite-once env other caller second g h id s t e =
    (done.0, at_most (is_some done.0.invitation.invitee_id) refl)
  where
    done : (a : Acceptance env caller g id s t) × Uses a.invitation id t
    done = accept_invite-Acceptance env caller g id s t e

    at_most :
        (b : Bool)
        → is_some done.0.invitation.invitee_id ≡ b
        → (b && is_ok (accept_invite other second h id t).0) ≡ false
    at_most false n = refl
    at_most true y = accept_invite-closed other second h id t (done.1 y).0 (done.1 y).1 (done.1 y).2

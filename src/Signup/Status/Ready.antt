-- ===== src/Signup/Status/Ready.antt =====
-- When the answer to a question for a signup says that the user is ready.
use registration_service.Prelude.{
  ◌≡◌, refl, sym, ap, ◌∙◌, inl, inr, Bool, true, false, not, ◌&&◌, Option, none, some, String,
  arith, ◌==◌, Bool-cases, Option-cases,
}
use registration_service.Action.{ok, outcome_cases, map_err, >>=-eq-ok, map_err-eq-ok}
use registration_service.Api.{UserSignup, Claims, Condition, approved, complete, ready}
use registration_service.Signup.Env.{ServiceEnv, MasterUserRecord}
use registration_service.Signup.Poll.{poll_update_signup}
use registration_service.Signup.Target.{get_default_user_target}
use registration_service.Signup.Status.{
  SignupStatus, SignupResponse, Lookup, respond, is_true, audit_update, add_cluster, with_cluster,
  complete_response, judge_complete, judge_conditions, is_pending, base_response, record_status,
  do_get_signup,
}

module _ {S W F : Type 0} (env : ServiceEnv S W F) where
  -- The signup has an approved condition that does not say that approval is pending, is complete, is neither deactivated, banned nor rejected, and its
  -- MasterUserRecord is ready.
  pub record Provisioned (u : UserSignup S) (check_completed : Bool) (r : SignupResponse)
      : Type 0 where
    pub condition : Condition
    pub has_condition : env.find_condition u.conditions complete ≡ some condition
    pub approval : Condition
    pub has_approval : env.find_condition u.conditions approved ≡ some approval
    pub not_pending :
        env.is_false_with_reason u.conditions approved env.pending_approval_reason ≡ false
    pub is_complete : (not (is_true condition.status) && check_completed) ≡ false
    pub not_deactivated : (condition.reason == env.user_deactivated_reason) ≡ false
    pub not_banned : (condition.reason == env.user_banned_reason) ≡ false
    pub not_rejected : (condition.reason == env.user_rejected_reason) ≡ false
    pub before : W
    pub after : W
    pub mur : MasterUserRecord
    pub mur_found : env.get_master_user_record u.compliant_username before ≡ (ok mur, after)
    pub mur_condition : Condition
    pub mur_has_condition : env.find_condition mur.conditions ready ≡ some mur_condition
    pub mur_ready : is_true mur_condition.status ≡ true
    pub same_name : r.name ≡ u.name
    pub same_username : r.compliant_username ≡ u.compliant_username

  -- The fields that the cluster does not change.
  add_cluster-same :
      (u : UserSignup S) (cluster ns : String) (b r : SignupResponse) (w w' : W)
      → add_cluster env u cluster ns b w ≡ (ok (some r), w')
      → (r.status ≡ b.status) × (r.name ≡ b.name) × (r.compliant_username ≡ b.compliant_username)
  unfolding add_cluster with_cluster
  add_cluster-same u cluster ns b r w w' h = ground (arith, h)

  -- A response is ready only by the condition of the MasterUserRecord.
  record_status-ready :
      (u : UserSignup S) (o : Option Condition)
      → (record_status env u o).ready ≡ true
      → (c : Condition) × (o ≡ some c) × (is_true c.status ≡ true)
  record_status-ready u none h = absurd (ground (arith, h))
  record_status-ready u (some c) h = (c, refl, h)

  -- The record that a complete signup is answered from.
  record Complete (u : UserSignup S) (r : SignupResponse) : Type 0 where
    before : W
    after : W
    mur : MasterUserRecord
    mur_found : env.get_master_user_record u.compliant_username before ≡ (ok mur, after)
    same_status : r.status ≡ record_status env u (env.find_condition mur.conditions ready)
    same_name : r.name ≡ u.name
    same_username : r.compliant_username ≡ u.compliant_username

  complete_response-Complete :
      (u : UserSignup S) (r : SignupResponse) (w w' : W)
      → complete_response env u w ≡ (ok (some r), w')
      → Complete u r
  unfolding complete_response base_response
  complete_response-Complete u r w w' h =
      let (mur, w1, found, rest) =
        >>=-eq-ok (map_err _ (env.get_master_user_record u.compliant_username)) _ w h in
      let (target, w2, _, last) =
        >>=-eq-ok (get_default_user_target env u.home_space mur.name) _ w1 rest in
      let (status, name, username) = add_cluster-same u target.0 target.1 _ r w2 w' last in
      record {
        before = w;
        after = w1;
        mur = mur;
        mur_found = map_err-eq-ok _ (env.get_master_user_record u.compliant_username) w found;
        same_status = status;
        same_name = name;
        same_username = username;
      }

  approval_of :
      (u : UserSignup S)
      → is_pending env u ≡ false
      → (c : Condition) × (env.find_condition u.conditions approved ≡ some c)
  unfolding is_pending
  approval_of u going = elim (Option-cases (env.find_condition u.conditions approved)) [
    | inl missing ↦ absurd (ground (arith, missing, going))
    | inr found ↦ found
  ]

  answered :
      (u : UserSignup S) (check_completed : Bool) (c : Condition) (r : SignupResponse) (w w' : W)
      → env.find_condition u.conditions complete ≡ some c
      → is_pending env u ≡ false
      → (not (is_true c.status) && check_completed) ≡ false
      → (c.reason == env.user_deactivated_reason) ≡ false
      → (c.reason == env.user_banned_reason) ≡ false
      → (c.reason == env.user_rejected_reason) ≡ false
      → complete_response env u w ≡ (ok (some r), w')
      → r.status.ready ≡ true
      → Provisioned u check_completed r
  answered u check_completed c r w w' has going fine here clean accepted h up =
      let d = complete_response-Complete u r w w' h in
      let (rc, has_rc, is_up) =
        record_status-ready u (env.find_condition d.mur.conditions ready)
          (sym (ap (λ (s : SignupStatus). s.ready) d.same_status) ∙ up) in
      record {
        condition = c;
        has_condition = has;
        approval = (approval_of u going).0;
        has_approval = (approval_of u going).1;
        not_pending = unfold is_pending in ground (arith, going);
        is_complete = fine;
        not_deactivated = here;
        not_banned = clean;
        not_rejected = accepted;
        before = d.before;
        after = d.after;
        mur = d.mur;
        mur_found = d.mur_found;
        mur_condition = rc;
        mur_has_condition = has_rc;
        mur_ready = is_up;
        same_name = d.same_name;
        same_username = d.same_username;
      }

  complete-Provisioned :
      (u : UserSignup S) (check_completed : Bool) (c : Condition) (r : SignupResponse) (w w' : W)
      → env.find_condition u.conditions complete ≡ some c
      → is_pending env u ≡ false
      → judge_complete env check_completed u c w ≡ (ok (some r), w')
      → r.status.ready ≡ true
      → Provisioned u check_completed r
  unfolding judge_complete base_response
  complete-Provisioned u check_completed c r w w' has going h up =
      elim (Bool-cases (not (is_true c.status) && check_completed)) [
        | inl incomplete ↦ absurd (ground (arith, h, up, incomplete))
        | inr fine ↦ elim (Bool-cases (c.reason == env.user_deactivated_reason)) [
          | inl gone ↦ absurd (ground (arith, h, fine, gone))
          | inr here ↦ elim (Bool-cases (c.reason == env.user_banned_reason)) [
            | inl banned ↦ absurd (ground (arith, h, fine, here, banned))
            | inr clean ↦ elim (Bool-cases (c.reason == env.user_rejected_reason)) [
              | inl refused ↦ absurd (ground (arith, h, fine, here, clean, refused))
              | inr accepted ↦
                  answered u check_completed c r w w' has going fine here clean accepted
                    (ground (arith, h, fine, here, clean, accepted)) up
            ]
          ]
        ]
      ]

  conditions-Provisioned :
      (u : UserSignup S) (check_completed : Bool) (r : SignupResponse) (w w' : W)
      → judge_conditions env check_completed u (env.find_condition u.conditions complete) w
        ≡ (ok (some r), w')
      → r.status.ready ≡ true
      → Provisioned u check_completed r
  unfolding base_response
  conditions-Provisioned u check_completed r w w' h up =
      elim (Option-cases (env.find_condition u.conditions complete)) [
        | inl missing ↦ absurd (ground (arith, rw missing at h, up))
        | inr (c, has) ↦ elim (Bool-cases (is_pending env u)) [
          | inl pending ↦ absurd (ground (arith, rw has at h, up, pending))
          | inr going ↦
              complete-Provisioned u check_completed c r w w' has going
                (ground (arith, rw has at h, going)) up
        ]
      ]

  respond-Provisioned :
      (check_completed : Bool) (o : Option (UserSignup S)) (r : SignupResponse) (w w' : W)
      → respond env check_completed o w ≡ (ok (some r), w')
      → r.status.ready ≡ true
      → (u : UserSignup S) × (o ≡ some u) × Provisioned u check_completed r
  respond-Provisioned check_completed none r w w' h up = absurd (ground (arith, h))
  respond-Provisioned check_completed (some u) r w w' h up =
      (u, refl, conditions-Provisioned u check_completed r w w' h up)

  -- If GetSignup answers that the user is ready, then the reads and updates of the UserSignup
  -- succeeded, and the UserSignup that they left has an approved condition that does not say that
  -- approval is pending, has a complete condition that is
  -- true where completeness is asked for, whose reason is none of deactivated, banned and
  -- rejected, and the MasterUserRecord of its compliant username was read and is ready.
  pub do_get_signup-Ready :
      (token : Option Claims) (username : String) (check_completed : Bool) (r : SignupResponse)
      (w w' : W)
      → do_get_signup env token username check_completed w ≡ (ok (some r), w')
      → r.status.ready ≡ true
      → (l : Lookup S W) × (u : UserSignup S) × (poll_update_signup
            (audit_update env token username)
            (record { signup = none; world = w })
          ≡ (ok tt, l))
        × (l.signup ≡ some u)
        × Provisioned u check_completed r
  unfolding do_get_signup
  do_get_signup-Ready token username check_completed r w w' h up =
      elim (outcome_cases (
        poll_update_signup (audit_update env token username)
          (record { signup = none; world = w }))) [
            | inr (e, l, failed) ↦ absurd (ground (arith, h, failed))
            | inl (done, l, polled) ↦
                let (u, found, p) =
                  respond-Provisioned check_completed l.signup r l.world w'
                    (ground (arith, h, polled)) up in
                (l, u, polled, found, p)
          ]

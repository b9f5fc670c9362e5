-- ===== src/Api.antt =====
-- The resources of the host cluster, by the fields that the source reads and writes, and what it
-- uses of toolchain-common's `states` package and of the cluster's client.
-- A nil label or annotation map is the empty one: the source reads both alike, and makes a map
-- before each write.
pub mod Keys
pub use Keys.*
use registration_service.Prelude.{
  ℕ, ◌≡◌, Bool, true, false, Option, none, some, List, String, if◌then◌else◌,
}
use registration_service.Prelude.Int.{ℤ}
use registration_service.Action.{Result, ok, err, Action}
use registration_service.Errors.{Err}

-- map[string]string
abbrev pub Dict : Type 0
Dict = Key → Option String

abbrev pub empty : Dict
empty k = none

-- m[k] = v
abbrev pub insert : Key → String → Dict → Dict
insert k v m j = if key_eq k j then some v else m j

-- delete(m, k)
abbrev pub delete : Key → Dict → Dict
delete k m j = if key_eq k j then none else m j

abbrev pub or_else : Option String → Option String → Option String
or_else none w = w
or_else (some v) w = some v

-- for k, v := range values { m[k] = v }
abbrev pub insert_all : Dict → Dict → Dict
insert_all values m j = or_else (values j) (m j)

abbrev pub or_empty : Option String → String
or_empty none = ""
or_empty (some v) = v

-- m[k], with "" for a missing key
abbrev pub value : Dict → Key → String
value m k = or_empty (m k)

-- IdentityClaimsEmbedded
pub record Claims : Type 0 where
  pub sub : String
  pub user_id : String
  pub account_id : String
  pub account_number : String
  pub original_sub : String
  pub email : String
  pub preferred_username : String
  pub given_name : String
  pub family_name : String
  pub company : String

pub data ConditionType : Type 0 where
  approved complete ready : ConditionType

pub data ConditionStatus : Type 0 where
  true_status false_status unknown_status : ConditionStatus

pub record Condition : Type 0 where
  pub kind : ConditionType
  pub status : ConditionStatus
  pub reason : String
  pub message : String

-- `S` is what `Spec.States` holds, which only the `states` package reads and writes.
pub record UserSignup (S : Type 0) : Type 0 where
  pub name : String
  pub annotations : Dict
  pub labels : Dict
  pub claims : Claims
  pub target_cluster : String
  pub states : S
  pub conditions : List Condition
  pub compliant_username : String
  pub home_space : String
  pub scheduled_deactivation : Option ℕ

-- Times are nanoseconds.
pub record SocialEvent : Type 0 where
  pub name : String
  pub activation_count : ℤ
  pub max_attendees : ℤ
  pub start_time : ℕ
  pub end_time : ℕ
  pub verification_required : Bool
  pub target_cluster : String

pub record BannedUser : Type 0 where
  pub email : String

-- The package `states`: each setter is read back by its getter, and unsetting one state keeps
-- the rejection.
pub record States (S : Type 0) : Type 0 where
  pub no_states : S
  pub verification_required : S → Bool
  pub rejected : S → Bool
  pub deactivated : S → Bool
  pub approved_manually : S → Bool
  pub set_verification_required : Bool → S → S
  pub set_rejected : Bool → S → S
  pub set_deactivated : Bool → S → S
  pub set_approved_manually : Bool → S → S
  pub verification_required-set :
      (b : Bool) (s : S) → verification_required (set_verification_required b s) ≡ b
  pub rejected-set : (b : Bool) (s : S) → rejected (set_rejected b s) ≡ b
  pub deactivated-set : (b : Bool) (s : S) → deactivated (set_deactivated b s) ≡ b
  pub approved_manually-set : (b : Bool) (s : S) → approved_manually (set_approved_manually b s) ≡ b
  pub approved_manually-set_deactivated :
      (s : S) → approved_manually (set_deactivated false s) ≡ approved_manually s
  pub verification_required-set_rejected :
      (b : Bool) (s : S) → verification_required (set_rejected b s) ≡ verification_required s
  pub rejected-no_states : rejected no_states ≡ false
  pub rejected-set_verification_required :
      (b : Bool) (s : S) → rejected (set_verification_required b s) ≡ rejected s

-- The cluster's client, over the state `W` of the world; another actor may act before each call.
-- `stored` is the UserSignup that the cluster holds under a name.
pub record Client (S W : Type 0) : Type 0 where
  pub get_signup : String → Action W (UserSignup S)
  pub create_signup : UserSignup S → Action W (Unit {0})
  pub update_signup : UserSignup S → Action W (Unit {0})
  pub get_event : String → Action W SocialEvent
  -- BannedUsers whose phone number hash label has the value
  pub list_banned_by_phone : String → Action W (List BannedUser)
  -- BannedUsers whose email hash label has the value
  pub list_banned_by_email : String → Action W (List BannedUser)
  -- UserSignups in the state `approved` whose phone number hash label has the value
  pub list_approved_by_phone : String → Action W (List (UserSignup S))
  -- time.Now()
  pub now : W → ℕ
  pub stored : W → String → Option (UserSignup S)
  pub get-stored :
      (n : String) (w w' : W) (u : UserSignup S)
      → get_signup n w ≡ (ok u, w')
      → (stored w' n ≡ some u) × (u.name ≡ n)
  pub update-stored :
      (u : UserSignup S) (w w' : W) → update_signup u w ≡ (ok tt, w') → stored w' u.name ≡ some u
  pub create-stored :
      (u : UserSignup S) (w w' : W) → create_signup u w ≡ (ok tt, w') → stored w' u.name ≡ some u

-- ===== src/Tests/World.antt =====
-- A cluster in memory: the signups written so far, the newest first, the events, a clock, and a
-- number of updates that will still fail, each after a millisecond.
use text.Mathlib.TextPositions.{eq_refl}
use registration_service.Prelude.{
  ℕ, zero, suc, ◌+◌, ◌*◌, ◌/◌, ◌≡◌, refl, ap, subst, Bool, true, false, Option, none, some, List,
  [], ◌∷◌, String, arith, ltb, length, if◌then◌else◌, Bool-cases, inl, inr, ◌==◌, eq_iff,
}
use registration_service.Prelude.Int.{pos}
use registration_service.Text.{◌⧺◌}
use registration_service.Text.Decimal.{show, read, read-show}
use registration_service.Errors.{Err, status, plain}
use registration_service.Action.{Action, Result, ok, err}
use registration_service.Api.{
  UserSignup, SocialEvent, BannedUser, States, Client, Dict, empty, Claims,
}
use registration_service.Configuration.{Floats, VerificationSpec, lookup_enabled}
use registration_service.Verification.Env.{Env, LookupResult}

-- The states of a signup, one flag each.
pub record Flags : Type 0 where
  pub verification : Bool
  pub reject : Bool
  pub deactivate : Bool
  pub approve : Bool

abbrev pub no_flags : Flags
no_flags = record { verification = false; reject = false; deactivate = false; approve = false }

abbrev pub flags : States Flags
flags = record {
  no_states = no_flags;
  verification_required = λ s. s.verification;
  rejected = λ s. s.reject;
  deactivated = λ s. s.deactivate;
  approved_manually = λ s. s.approve;
  set_verification_required = λ b s. record s { verification = b };
  set_rejected = λ b s. record s { reject = b };
  set_deactivated = λ b s. record s { deactivate = b };
  set_approved_manually = λ b s. record s { approve = b };
  verification_required-set = λ b s. refl;
  rejected-set = λ b s. refl;
  deactivated-set = λ b s. refl;
  approved_manually-set = λ b s. refl;
  approved_manually-set_deactivated = λ s. refl;
  verification_required-set_rejected = λ b s. refl;
  rejected-no_states = refl;
  rejected-set_verification_required = λ b s. refl;
}

abbrev pub User : Type 0
User = UserSignup Flags

pub record World : Type 0 where
  pub signups : List User
  pub events : List SocialEvent
  pub banned_emails : List String
  pub clock : ℕ
  pub failures : ℕ
  pub messages : List String
  pub lookup : Option LookupResult

abbrev find : String → List User → Option User
find n [] = none
find n (u ∷ us) = if u.name == n then some u else find n us

find-name : (n : String) (us : List User) (u : User) → find n us ≡ some u → u.name ≡ n
find-name n [] u h = absurd (ground (arith, h))
find-name n (v ∷ us) u h = elim (Bool-cases (v.name == n)) [
  | inl same ↦ ground (arith, same, h, eq_iff v.name n)
  | inr other ↦ find-name n us u (rw other at h)
]

abbrev missing : Err
missing = status 404 "not found"

abbrev or_missing {ℓ} : {A : Type ℓ} → Option A → Result A
or_missing none = err missing
or_missing (some a) = ok a

abbrev get_signup : String → Action World User
get_signup n w = (or_missing (find n w.signups), w)

pub get_signup-find :
    (n : String) (w w' : World) (u : User)
    → get_signup n w ≡ (ok u, w')
    → (find n w'.signups ≡ some u) × (u.name ≡ n)
get_signup-find n w w' u h =
    let found : find n w.signups ≡ some u = ground (arith, h) in
    let same : w ≡ w' = ap (λ p. p.1) h in
    (subst (λ (v : World). find n v.signups ≡ some u) same found, find-name n w.signups u found)

abbrev write : User → World → World
write u w = record w { signups = u ∷ w.signups }

abbrev update_signup : User → Action World (Unit {0})
update_signup u w = elim w.failures [
  | zero ↦ (ok tt, write u w)
  | suc k ↦ (err (status 409 "conflict"), record w { failures = k; clock = w.clock + 1_000_000 })
]

abbrev create_signup : User → Action World (Unit {0})
create_signup u w = elim (find u.name w.signups) [
  | none ↦ (ok tt, write u w)
  | some v ↦ (err (status 409 "already exists"), w)
]

find_written : (u : User) (us : List User) → find u.name (u ∷ us) ≡ some u
find_written u us = rw (eq_refl u.name)

pub update_signup-find :
    (u : User) (w w' : World) → update_signup u w ≡ (ok tt, w') → find u.name w'.signups ≡ some u
update_signup-find u w w' h = ground (arith, h, find_written u w.signups)

pub create_signup-find :
    (u : User) (w w' : World) → create_signup u w ≡ (ok tt, w') → find u.name w'.signups ≡ some u
create_signup-find u w w' h = ground (arith, h, find_written u w.signups)

abbrev find_event : String → List SocialEvent → Option SocialEvent
find_event n [] = none
find_event n (e ∷ es) = if e.name == n then some e else find_event n es

abbrev banned : String → List String → List BannedUser
banned e [] = []
banned e (b ∷ bs) = if b == e then record { email = b } ∷ banned e bs else banned e bs

abbrev pub cluster : Client Flags World
cluster = record {
  get_signup = get_signup;
  create_signup = create_signup;
  update_signup = update_signup;
  get_event = λ n w. (or_missing (find_event n w.events), w);
  list_banned_by_phone = λ p w. (ok [], w);
  list_banned_by_email = λ e w. (ok (banned e w.banned_emails), w);
  list_approved_by_phone = λ p w. (ok [], w);
  now = λ w. w.clock;
  stored = λ w n. find n w.signups;
  get-stored = get_signup-find;
  update-stored = update_signup-find;
  create-stored = create_signup-find;
}

-- Scores are whole numbers.
abbrev pub scores : Floats ℕ
scores = record {
  parse_float = λ s. read s;
  less = ltb;
  zero_score = 0;
  default_score_threshold = 9;
  no_score = 0;
  show_score = λ f. show f;
}

abbrev bytes : ℕ → List ℕ
bytes zero = []
bytes (suc n) = n ∷ bytes n

length-bytes : (n : ℕ) → length (bytes n) ≡ n
length-bytes zero = refl
length-bytes (suc n) = ap suc (length-bytes n)

pub read_random-length :
    (n : ℕ) (w w' : World) (bs : List ℕ)
    → ◌≡◌ {A = Result (List ℕ) × World} (ok (bytes n), w) (ok bs, w')
    → length bs ≡ n
read_random-length n w w' bs h =
    let same : bytes n ≡ bs = ground (arith, h) in subst (λ b. length b ≡ n) same (length-bytes n)

abbrev millis : Option ℕ → Result ℕ
millis none = err (plain "bad time")
millis (some n) = ok (n * 1_000_000)

pub parse-format_time :
    (t : ℕ) → millis (read (show (t / 1_000_000))) ≡ ok (t / 1_000_000 * 1_000_000)
parse-format_time t = rw (read-show (t / 1_000_000))

abbrev looked_up : Option LookupResult → Result LookupResult
looked_up none = err (plain "no lookup")
looked_up (some r) = ok r

abbrev pub env : Env Flags World ℕ
env = record {
  client = cluster;
  states = flags;
  floats = scores;
  encode_string = λ s. s;
  encode_user_identifier = λ s. s;
  send_notification =
      λ content number country w. (ok tt, record w { messages = content ∷ w.messages });
  lookup_phone = λ number w. (looked_up w.lookup, w);
  region_code_of = λ number. ok "US";
  marshal_details = λ r. ok r.carrier_name;
  attempts_key = "verification-attempts";
  atoi_error = λ v. "invalid syntax";
  read_random = λ n w. (ok (bytes n), w);
  read_random-length = read_random-length;
  format_message = λ template c. template ⧺ c;
  format_time = λ t. show (t / 1_000_000);
  parse_time = λ s. millis (read s);
  parse-format_time = parse-format_time;
  signup_with_event = λ code w. (ok tt, w);
}

abbrev pub claims_of : String → Claims
claims_of name = record {
  sub = name;
  user_id = "1";
  account_id = "2";
  account_number = "3";
  original_sub = "";
  email = name ⧺ "@example.com";
  preferred_username = name;
  given_name = "";
  family_name = "";
  company = "";
}

abbrev pub user : String → Flags → Dict → User
user name states annotations = record {
  name = name;
  annotations = annotations;
  labels = empty;
  claims = claims_of name;
  target_cluster = "";
  states = states;
  conditions = [];
  compliant_username = "";
  home_space = "";
  scheduled_deactivation = none;
}

-- Two attempts for a code, two codes a day, and the phone lookup in force.
abbrev pub cfg : VerificationSpec
cfg = record {
  enabled = some true;
  daily_limit = some (pos 2);
  attempts_allowed = some (pos 2);
  message_template = none;
  excluded_email_domains = none;
  code_expires_in_min = none;
  captcha_enabled = none;
  captcha_score_threshold = none;
  captcha_required_score = none;
  captcha_allow_low_score_reactivation = none;
  phone_lookup_mode = some lookup_enabled;
  phone_lookup_excluded_countries = [];
}

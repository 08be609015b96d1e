-- ===== src/Premium.antt =====
-- Premium membership: src/module/premium/premium.service.ts over premium.repository.ts. The
-- operations run on the three tables that they write. `now` is what `new Date()` returns during
-- the call, and `uuid` the id that the database gives to the created subscription.
pub mod Guard
pub mod Consistency
pub mod Expiry
pub mod Agreement
pub mod Calls
pub mod Effects
mod Tests
use gbi_backend.Base.{
  ℕ, ◌≤◌, Bool, true, false, not, ◌&&◌, Option, none, some, List, [], ◌∷◌, Text, ltb, leb, ◌==◌,
  if◌then◌else◌, is_some, length,
}
use gbi_backend.Http.{
  bad_request, not_found, internal, user_not_found, already_premium, not_premium,
  expiry_before_activation, expiry_in_past, no_current_expiry, expiry_not_extended,
  record_not_found, Action, pure, throw, throw_if, gets, or_throw, modify, transaction, ◌>>=◌, ◌>>◌,
}
use gbi_backend.Schema.{
  PremiumStatus, SubStatus, PremiumActionType, User, Actor, admin, Notes, given,
  PremiumSubscription, PremiumHistory,
}
use gbi_backend.Prisma.{Prisma}

pub record Tables : Type 0 where
  pub users : List User
  pub subs : List PremiumSubscription
  pub history : List PremiumHistory

-- ActivatePremiumDto, with its dates parsed.
pub record ActivatePremiumDto : Type 0 where
  pub user_id : ℕ
  pub activation_date : ℕ
  pub expiry_date : ℕ
  pub notes : Option Text

pub record RenewPremiumDto : Type 0 where
  pub user_id : ℕ
  pub new_expiry_date : ℕ
  pub notes : Option Text

pub record RevokePremiumDto : Type 0 where
  pub user_id : ℕ
  pub reason : Text

-- The filters of the queries.
abbrev pub has_id : ℕ → User → Bool
has_id user_id u = u.id == user_id

abbrev pub is_active : SubStatus → Bool
is_active SubStatus.active = true
is_active _ = false

abbrev pub active_of : ℕ → PremiumSubscription → Bool
active_of user_id s = (s.user_id == user_id) && is_active s.status

-- `premiumExpiry: { lt: now }`, which no null value meets
abbrev pub before : ℕ → Option ℕ → Bool
before now none = false
before now (some t) = ltb t now

abbrev pub is_overdue : ℕ → User → Bool
is_overdue now u = u.is_premium && before now u.premium_expiry

abbrev pub id_in : List ℕ → ℕ → Bool
id_in [] i = false
id_in (x ∷ xs) i = let rest = id_in xs i in if x == i then true else rest

abbrev pub ids : List User → List ℕ
ids [] = []
ids (u ∷ us) = u.id ∷ ids us

abbrev pub new_subscription : ℕ → Actor → ℕ → ℕ → ℕ → PremiumSubscription
new_subscription user_id by activation_date expiry_date uuid = record {
  id = uuid;
  user_id = user_id;
  activated_by = by;
  activation_date = activation_date;
  expiry_date = expiry_date;
  status = SubStatus.active;
  revoked_by = none;
  revoked_reason = none;
  revoked_at = none;
}

-- `previousExpiry?.premiumExpiry`
abbrev pub expiry_of : Option User → Option ℕ
expiry_of none = none
expiry_of (some u) = u.premium_expiry

-- What each operation writes into the user's row.
abbrev pub activated : ℕ → User → User
activated expiry_date u = record u {
  is_premium = true;
  premium_expiry = some expiry_date;
  premium_status = PremiumStatus.premium;
}

abbrev pub renewed : ℕ → User → User
renewed new_expiry u = record u {
  premium_expiry = some new_expiry;
  premium_status = PremiumStatus.premium;
}

abbrev pub revoked_at : ℕ → User → User
revoked_at now u = record u {
  is_premium = false;
  premium_expiry = some now;
  premium_status = PremiumStatus.revoked;
}

-- What a renewal and a revocation write into the user's ACTIVE subscriptions.
abbrev pub extended : ℕ → PremiumSubscription → PremiumSubscription
extended new_expiry s = record s { expiry_date = new_expiry }

abbrev pub revoked_sub : Actor → Text → ℕ → PremiumSubscription → PremiumSubscription
revoked_sub by reason now s = record s {
  status = SubStatus.revoked;
  revoked_by = some by;
  revoked_reason = some reason;
  revoked_at = some now;
}

abbrev pub lapsed : User → User
lapsed u = record u { is_premium = false; premium_status = PremiumStatus.expired }

module _ (db : Prisma) where
  open db use {find_first, find_many, create, update_many}

  pub find_user_by_id : ℕ → Action Tables (Option User)
  find_user_by_id user_id = gets (λ d. find_first (has_id user_id) d.users)

  -- `user.update`, which throws where the id is unknown
  update_user : ℕ → (User → User) → Action Tables (Unit {0})
  update_user user_id change d = elim (find_first (has_id user_id) d.users) [
    | none ↦ throw internal record_not_found d
    | some u ↦ modify (λ e. record e { users = update_many (has_id user_id) change e.users }) d
  ]

  update_active_subs : ℕ → (PremiumSubscription → PremiumSubscription) → Action Tables (Unit {0})
  update_active_subs user_id change =
      modify (λ d. record d { subs = update_many (active_of user_id) change d.subs })

  log_action : PremiumHistory → Action Tables (Unit {0})
  log_action row = modify (λ d. record d { history = create row d.history })

  -- PremiumRepository.activatePremium, within a transaction of its caller
  unfoldable pub repo_activate : ℕ → Actor → ℕ → ℕ → Notes → ℕ → Action Tables PremiumSubscription
  unfolding update_user log_action
  repo_activate user_id by activation_date expiry_date notes uuid = do
    let subscription = new_subscription user_id by activation_date expiry_date uuid
    modify (λ d. record d { subs = create subscription d.subs })
    update_user user_id (activated expiry_date)
    log_action (record {
      user_id = user_id;
      action_type = PremiumActionType.activate;
      previous_expiry = none;
      new_expiry = some expiry_date;
      admin_id = by;
      notes = notes;
    })
    pure subscription

  repo_renew : ℕ → ℕ → ℕ → ℕ → Option Text → Action Tables (Unit {0})
  unfolding update_user update_active_subs log_action
  repo_renew user_id admin_id previous_expiry new_expiry_date notes = transaction (do
    update_active_subs user_id (extended new_expiry_date)
    update_user user_id (renewed new_expiry_date)
    log_action (record {
      user_id = user_id;
      action_type = PremiumActionType.renew;
      previous_expiry = some previous_expiry;
      new_expiry = some new_expiry_date;
      admin_id = admin admin_id;
      notes = given notes;
    }))

  repo_revoke : ℕ → ℕ → Text → ℕ → Action Tables (Unit {0})
  unfolding find_user_by_id update_user update_active_subs log_action
  repo_revoke user_id admin_id reason now = transaction (do
    previous ← find_user_by_id user_id
    update_active_subs user_id (revoked_sub (admin admin_id) reason now)
    update_user user_id (revoked_at now)
    log_action (record {
      user_id = user_id;
      action_type = PremiumActionType.revoke;
      previous_expiry = expiry_of previous;
      new_expiry = some now;
      admin_id = admin admin_id;
      notes = given (some reason);
    }))

  -- PremiumRepository.expireOverdueSubscriptions: the number of the users found
  repo_expire : ℕ → Action Tables ℕ
  repo_expire now = do
    overdue ← gets (λ d. find_many (is_overdue now) d.users)
    if length overdue == 0
        then pure 0
        else transaction (do
          modify (λ d. record d {
            subs =
                update_many
                  (λ s.
                    id_in (ids overdue) s.user_id && is_active s.status && ltb s.expiry_date now)
                  (λ s. record s { status = SubStatus.expired }) d.subs;
          })
          modify
              (λ d. record d { users = update_many (λ u. id_in (ids overdue) u.id) lapsed d.users })
          pure (length overdue))

  unfoldable pub activate_premium :
      ActivatePremiumDto → ℕ → ℕ → ℕ → Action Tables PremiumSubscription
  unfolding find_user_by_id repo_activate
  activate_premium dto admin_id uuid now = do
    user ← or_throw (← find_user_by_id dto.user_id) not_found user_not_found
    throw_if user.is_premium bad_request already_premium
    throw_if (leb dto.expiry_date dto.activation_date) bad_request expiry_before_activation
    throw_if (leb dto.expiry_date now) bad_request expiry_in_past
    transaction (
        repo_activate dto.user_id (admin admin_id) dto.activation_date dto.expiry_date
          (given dto.notes) uuid)

  unfoldable pub renew_premium : RenewPremiumDto → ℕ → Action Tables (Unit {0})
  unfolding find_user_by_id repo_renew
  renew_premium dto admin_id = do
    user ← or_throw (← find_user_by_id dto.user_id) not_found user_not_found
    throw_if (not user.is_premium) bad_request not_premium
    current_expiry ← or_throw user.premium_expiry bad_request no_current_expiry
    throw_if (leb dto.new_expiry_date current_expiry) bad_request expiry_not_extended
    repo_renew dto.user_id admin_id current_expiry dto.new_expiry_date dto.notes

  unfoldable pub revoke_premium : RevokePremiumDto → ℕ → ℕ → Action Tables (Unit {0})
  unfolding find_user_by_id repo_revoke
  revoke_premium dto admin_id now = do
    user ← or_throw (← find_user_by_id dto.user_id) not_found user_not_found
    throw_if (not user.is_premium) bad_request not_premium
    repo_revoke dto.user_id admin_id dto.reason now

  -- the nightly job
  unfoldable pub handle_expired_subscriptions : ℕ → Action Tables ℕ
  unfolding repo_expire
  handle_expired_subscriptions now = repo_expire now

-- ===== src/Admin/Auth/BruteForce.antt =====
-- Guessing passwords locks the user.
use rag_service.Prelude.{
  ℕ, suc, ◌+◌, ◌-◌, ◌/◌, ◌≤◌, ◌<◌, Text, Bool, true, false, List, [], ◌∷◌, Option, none, some, ltb,
  length, All, if◌then◌else◌, ◌≡◌, refl, ap, ◌∙◌, arith,
}
use rag_service.Admin.Exec.{Error, Result, ok, err, authorization_error, M, chain}
use rag_service.Admin.Effects.{raise}
use rag_service.Admin.Redis.{Redis, get}
use rag_service.Admin.Settings.{Settings}
use rag_service.Admin.Model.{User}
use rag_service.Admin.Lockout.{Format, Formats, lock_key, handle_login_failure, locked_message}
use rag_service.Admin.Lockout.Counting.{
  check_unlocked, check_locked, Counted, failure-Counted, failure_locks,
}
use rag_service.Admin.Auth.{
  get_by_username, matches, check_password, admitted, verified, user_verify,
}

-- A guess is its time and its password.
abbrev pub last_time : ℕ → List (ℕ × Text) → ℕ
last_time last [] = last
last_time last ((t, _) ∷ guesses) = last_time t guesses

module _ (settings : Settings) (format : Format) (password_verify : Text → Text → Bool) where
  -- Each guess comes before the count of the one before it expires.
  abbrev pub Close : ℕ → List (ℕ × Text) → Type 0
  Close last [] = Unit
  Close last ((t, _) ∷ guesses) =
      (last ≤ t) × (t < last + settings.user_lock_seconds) × Close t guesses

  pub after_guesses : Text → List User → List (ℕ × Text) → Redis → Redis
  after_guesses username users [] redis = redis
  after_guesses username users ((t, password) ∷ guesses) redis =
      after_guesses username users guesses
        (user_verify settings format password_verify t username password users redis).1

  module _ (username : Text) (users : List User) (user : User) (hashed : Text)
      (found : get_by_username username users ≡ some user) (active : user.status ≡ true)
      (has : user.password ≡ some hashed) where
    then_raise :
        {A : Type 0} (m : Result (Unit {0}) × Redis) (e : Error) (next : Unit {0} → M Redis A)
        → (chain (chain m (λ _. raise e)) next).1 ≡ m.1
    then_raise (ok _, r) e next = refl
    then_raise (err _, r) e next = refl

    find_user :
        (t : ℕ) (password : Text) (redis : Redis)
        → user_verify settings format password_verify t username password users redis
          ≡ verified settings format password_verify t password user redis
    unfolding user_verify
    find_user t password redis = rw found

    failed_password :
        {A : Type 0} (t : ℕ) (password : Text) (redis : Redis) (next : Unit {0} → M Redis A)
        → matches settings format password_verify password user.password ≡ false
        → (chain (check_password settings format password_verify t password user redis) next).1
          ≡ (handle_login_failure settings format t user.id redis).1
    unfolding check_password
    failed_password t password redis next wrong =
        rw wrong (then_raise (handle_login_failure settings format t user.id redis) _ next)

    -- A wrong guess for a user who is not locked is a failure.
    wrong_guess :
        (t : ℕ) (password : Text) (redis : Redis)
        → get t (lock_key user.id) redis ≡ none
        → password_verify password hashed ≡ false
        → (user_verify settings format password_verify t username password users redis).1
          ≡ (handle_login_failure settings format t user.id redis).1
    unfolding verified matches
    wrong_guess t password redis unlocked wrong =
        let admit : Unit {0} → M Redis (User × Option ℕ) =
          λ _. admitted settings format password_verify t user in
        let check : Unit {0} → M Redis (User × Option ℕ) =
          λ _ r. chain (check_password settings format password_verify t password user r) admit in
        ap (λ (r : Result (User × Option ℕ) × Redis). r.1) (find_user t password redis)
        ∙ ap (λ (r : Result (Unit {0}) × Redis). (chain r check).1)
            (check_unlocked settings format t user.id user.status redis active unlocked)
        ∙ failed_password t password redis admit
            (ap (matches settings format password_verify password) has ∙ wrong)

    refused_while_locked :
        Formats format
        → (t until : ℕ) (password : Text) (redis : Redis)
        → get t (lock_key user.id) redis ≡ some (format.to_str until)
        → t < until
        → user_verify settings format password_verify t username password users redis
          ≡ (err (authorization_error (locked_message ((until - t + 59) / 60))), redis)
    unfolding verified
    refused_while_locked laws t until password redis locked h =
        let check : Unit {0} → M Redis (User × Option ℕ) = λ _ r.
          chain (check_password settings format password_verify t password user r)
            (λ _. admitted settings format password_verify t user) in
        find_user t password redis
        ∙ ap (λ (r : Result (Unit {0}) × Redis). chain r check)
            (check_locked settings format laws t user.id until user.status redis active locked h)

    guesses_lock :
        (n last t : ℕ) (guesses : List (ℕ × Text)) (redis : Redis)
        → Counted settings format user.id n last redis
        → All (λ g. password_verify g.1 hashed ≡ false) guesses
        → Close last guesses
        → 0 < length guesses
        → n + length guesses ≡ settings.user_lock_threshold
        → get t (lock_key user.id) (after_guesses username users guesses redis) ≡ (
            if ltb t (last_time last guesses + settings.user_lock_seconds)
            then some (format.to_str (last_time last guesses + settings.user_lock_seconds))
            else none)
    unfolding after_guesses
    guesses_lock n last t [] redis c w close p e = absurd (omega arith)
    guesses_lock n last t ((now, password) ∷ []) redis c w close p e =
        ap (get t (lock_key user.id)) (wrong_guess now password redis (c.unlocked now close.0) w.0)
        ∙ failure_locks settings format user.id n last now redis c close.0 close.1 (omega arith)
            (omega arith) t
    guesses_lock n last t ((now, password) ∷ g ∷ guesses) redis c w close p e =
        let step =
          failure-Counted settings format user.id n last now redis c close.0 close.1
            (omega arith) in
        ap (λ r. get t (lock_key user.id) (after_guesses username users (g ∷ guesses) r))
          (wrong_guess now password redis (c.unlocked now close.0) w.0)
        ∙ guesses_lock (suc n) now t (g ∷ guesses) _ step.1 w.1 close.2 (omega arith) (omega arith)

    -- As many wrong guesses as the threshold, each soon enough after the one before, lock an active
    -- user who had no failures and no lock: until the lock ends every login is refused, with the
    -- right password too, and a refusal changes nothing.
    pub brute_force_locks :
        Formats format
        → (start t : ℕ) (guesses : List (ℕ × Text)) (password : Text) (redis : Redis)
        → Counted settings format user.id 0 start redis
        → All (λ g. password_verify g.1 hashed ≡ false) guesses
        → Close start guesses
        → 0 < settings.user_lock_threshold
        → length guesses ≡ settings.user_lock_threshold
        → t < last_time start guesses + settings.user_lock_seconds
        → let until = last_time start guesses + settings.user_lock_seconds in
          let after = after_guesses username users guesses redis in
          user_verify settings format password_verify t username password users after
          ≡ (err (authorization_error (locked_message ((until - t + 59) / 60))), after)
    brute_force_locks laws start t guesses password redis c w close p e h =
        let until = last_time start guesses + settings.user_lock_seconds in
        let early : ltb t until ≡ true = ground arith in
        refused_while_locked laws t until password (after_guesses username users guesses redis)
          (guesses_lock 0 start t guesses redis c w close (omega arith) (omega arith) ∙ rw early) h

-- ===== src/Admin/Lockout/Counting.antt =====
-- What a failed login leaves in Redis.
use rag_service.Prelude.{
  ℕ, suc, ◌+◌, ◌-◌, ◌/◌, ◌≤◌, ◌<◌, Text, Bool, true, false, Option, none, some, ltb, leb, ◌==◌,
  text_eq, text_eq_refl, if◌then◌else◌, ◌≡◌, refl, ap, ◌∙◌, ◌⊎◌, inl, inr, ltb→le, arith,
  Bool-cases, show_nat, show_nat-ne,
}
use rag_service.Admin.Exec.{Error, Result, ok, err, authorization_error}
use rag_service.Admin.Redis.{Redis, get, set}
use rag_service.Admin.Redis.Laws.{get-set}
use rag_service.Admin.Redis.Keys.{user_key}
use rag_service.Admin.Settings.{Settings}
use rag_service.Admin.Tokens.{filled}
use rag_service.Admin.Tokens.Numbers.{int_of-show, filled_text}
use rag_service.Admin.Lockout.{
  Format, Formats, lock_key, failure_key, count_of, count_failure, handle_login_failure,
  check_status, locked_message, still_locked,
}

lock-ne-failure : (u : ℕ) → text_eq (lock_key u) (failure_key u) ≡ false
unfolding user_key text_eq
lock-ne-failure u = refl

failure-ne-lock : (u : ℕ) → text_eq (failure_key u) (lock_key u) ≡ false
unfolding user_key text_eq
failure-ne-lock u = refl

module _ (settings : Settings) (format : Format) where
  -- Redis has counted `n` failures of a user, the last of them at `last`, and no lock.
  pub record Counted (user_id n last : ℕ) (redis : Redis) : Type 0 where
    pub count :
        (t : ℕ) → last ≤ t → t < last + settings.user_lock_seconds → count_of t user_id redis ≡ ok n
    pub unlocked : (t : ℕ) → last ≤ t → get t (lock_key user_id) redis ≡ none

  -- The two writes of a failure, and what it answers.
  failure_written : ℕ → ℕ → ℕ → Redis → Redis
  failure_written now u n redis =
      set now (failure_key u) (show_nat (suc n)) settings.user_lock_seconds redis

  failed :
      (u n last now : ℕ) (redis : Redis)
      → Counted u n last redis
      → 0 < settings.user_lock_threshold
      → last ≤ now
      → now < last + settings.user_lock_seconds
      → handle_login_failure settings format now u redis
        ≡ count_failure settings format now u n redis
  unfolding handle_login_failure
  failed u n last now redis c p h l =
      let on : settings.user_lock_threshold == 0 ≡ false = ground arith in rw (on, c.count now h l)

  count-written :
      (u n now t : ℕ) (redis : Redis)
      → t < now + settings.user_lock_seconds
      → count_of t u (failure_written now u n redis) ≡ ok (suc n)
  unfolding count_of failure_written
  count-written u n now t redis l =
      let live : ltb t (now + settings.user_lock_seconds) ≡ true = ground arith in
      rw
        (
          get-set now t (failure_key u) (failure_key u) (show_nat (suc n))
              settings.user_lock_seconds redis,
          text_eq_refl (failure_key u),
          live,
          filled_text (show_nat (suc n)) (show_nat-ne (suc n)),
          count_of,
        )
        (int_of-show (suc n))

  unlocked-written :
      (u n last now t : ℕ) (redis : Redis)
      → Counted u n last redis
      → last ≤ now
      → now ≤ t
      → get t (lock_key u) (failure_written now u n redis) ≡ none
  unfolding failure_written
  unlocked-written u n last now t redis c h later =
      get-set now t (failure_key u) (lock_key u) (show_nat (suc n)) settings.user_lock_seconds redis
      ∙ rw (failure-ne-lock u, c.unlocked t (omega arith))

  Counted-step :
      (u n last now : ℕ) (redis : Redis)
      → Counted u n last redis
      → last ≤ now
      → now < last + settings.user_lock_seconds
      → suc n < settings.user_lock_threshold
      → handle_login_failure settings format now u redis ≡ (ok tt, failure_written now u n redis)
  unfolding count_failure failure_written
  Counted-step u n last now redis c h l below =
      let under : leb settings.user_lock_threshold (suc n) ≡ false = ground arith in
      failed u n last now redis c (omega arith) h l ∙ rw under

  -- A failure below the threshold is counted.
  pub failure-Counted :
      (u n last now : ℕ) (redis : Redis)
      → Counted u n last redis
      → last ≤ now
      → now < last + settings.user_lock_seconds
      → suc n < settings.user_lock_threshold
      → ((handle_login_failure settings format now u redis).0 ≡ ok tt)
        × Counted u (suc n) now (handle_login_failure settings format now u redis).1
  failure-Counted u n last now redis c h l below =
      rw (Counted-step u n last now redis c h l below) (
        refl,
        record {
          count = λ t _ live. count-written u n now t redis live;
          unlocked = λ t later. unlocked-written u n last now t redis c h later;
        },
      )

  -- A failure that reaches the threshold locks the user.
  pub failure_locks :
      (u n last now : ℕ) (redis : Redis)
      → Counted u n last redis
      → last ≤ now
      → now < last + settings.user_lock_seconds
      → 0 < settings.user_lock_threshold
      → settings.user_lock_threshold ≤ suc n
      → (t : ℕ)
      → get t (lock_key u) (handle_login_failure settings format now u redis).1 ≡ (
          if ltb t (now + settings.user_lock_seconds)
          then some (format.to_str (now + settings.user_lock_seconds))
          else none)
  unfolding count_failure
  failure_locks u n last now redis c h l p reached t =
      let full : leb settings.user_lock_threshold (suc n) ≡ true = ground arith in
      ap (λ (r : Result (Unit {0}) × Redis). get t (lock_key u) r.1)
        (failed u n last now redis c p h l)
      ∙ rw full (
          get-set now t (lock_key u) (lock_key u) (format.to_str (now + settings.user_lock_seconds))
            settings.user_lock_seconds _
          ∙ rw (text_eq_refl (lock_key u)))

  pub check_unlocked :
      (now u : ℕ) (status : Bool) (redis : Redis)
      → status ≡ true
      → get now (lock_key u) redis ≡ none
      → check_status settings format now u status redis ≡ (ok tt, redis)
  unfolding check_status
  check_unlocked now u status redis active e = rw (active, e, still_locked)

  pub check_locked :
      Formats format
      → (now u until : ℕ) (status : Bool) (redis : Redis) → status ≡ true
      → get now (lock_key u) redis ≡ some (format.to_str until)
      → now < until
      → check_status settings format now u status redis
        ≡ (err (authorization_error (locked_message ((until - now + 59) / 60))), redis)
  unfolding check_status
  check_locked laws now u until status redis active e h =
      let early : ltb now until ≡ true = ground arith in
      rw (active, e, laws.nonempty until, still_locked, laws.from_str-to_str until, early)

  locked-ne-ok :
      {raised : Error} {r s : Redis}
      → ¬ ◌≡◌ {A = Result (Unit {0}) × Redis} (err raised, r) (ok tt, s)
  locked-ne-ok h = cc

  still_locked-ok :
      (now u : ℕ) (stored : Option Text) (redis after : Redis)
      → still_locked settings format now u stored redis ≡ (ok tt, after)
      → (stored ≡ none) ⊎ ((s : Text) × (stored ≡ some s) × (format.from_str s ≤ now))
  unfolding still_locked
  still_locked-ok now u none redis after h = inl refl
  still_locked-ok now u (some s) redis after h = elim (Bool-cases (ltb now (format.from_str s))) [
    | inl e ↦ absurd (locked-ne-ok (rw e at h))
    | inr e ↦ inr (s, refl, ltb→le now (format.from_str s) e)
  ]

  -- A check that passes saw an active user with no lock, or one that has ended.
  pub check_passed :
      (now u : ℕ) (status : Bool) (redis after : Redis)
      → check_status settings format now u status redis ≡ (ok tt, after)
      → (status ≡ true)
        × ((filled (get now (lock_key u) redis) ≡ none)
            ⊎ ((s : Text) × (filled (get now (lock_key u) redis) ≡ some s)
                × (format.from_str s ≤ now)))
  unfolding check_status
  check_passed now u false redis after h = absurd (locked-ne-ok h)
  check_passed now u true redis after h =
      (refl, still_locked-ok now u (filled (get now (lock_key u) redis)) redis after h)

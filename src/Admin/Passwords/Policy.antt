-- ===== src/Admin/Passwords/Policy.antt =====
-- A new password is accepted exactly if it follows the policy.
use rag_service.Prelude.{
  ℕ, ◌≤◌, Text, codes, Bool, true, false, ◌&&◌, not, List, [], ◌∷◌, take, any, length, ltb, All,
  ◌≡◌, ◌↔◌, ◌⊎◌, inl, inr, refl, arith, Bool-cases,
}
use rag_service.Admin.Exec.{Error, Result, ok, ◌>>=◌, guard, request_error}
use rag_service.Admin.Settings.{Settings}
use rag_service.Admin.Passwords.{
  too_short, too_long, UserPasswordHistory, get_by_user_id, is_letter, is_special, is_has_number,
  is_has_letter, is_has_special_char, check_reuse, validate_new_password,
}

module _ (settings : Settings) (is_digit : ℕ → Bool) (password_verify : Text → Text → Bool) where
  -- The policy: the bounds on the length, a digit, a letter, a special character if one is required,
  -- and none of the last passwords of the user.
  pub record FollowsPolicy (user_id : ℕ) (password : Text) (rows : List UserPasswordHistory)
      : Type 0 where
    pub long : settings.user_password_min_length ≤ length password
    pub short : length password ≤ settings.user_password_max_length
    pub digit : any is_digit password ≡ true
    pub letter : any is_letter password ≡ true
    pub special :
        (settings.user_password_require_special_char ≡ false) ⊎ (any is_special password ≡ true)
    pub fresh :
        All
          (λ (row : UserPasswordHistory). password_verify password row.password ≡ false)
          (take settings.user_password_history_check_count (get_by_user_id user_id rows))

  check_reuse-ok :
      (password : Text) (history : List UserPasswordHistory)
      → (check_reuse settings is_digit password_verify password history ≡ ok tt)
        ↔ All (λ (row : UserPasswordHistory). password_verify password row.password ≡ false) history
  unfolding check_reuse
  check_reuse-ok password [] = (λ _. tt, λ _. refl)
  check_reuse-ok password (row ∷ history) =
      let ih = check_reuse-ok password history in
      elim (Bool-cases (password_verify password row.password)) [
        | inl e ↦ rw e ((λ h. cc), (λ h. cc))
        | inr e ↦ rw e ((λ h. (refl, ih.0 h)), (λ h. ih.1 h.1))
      ]

  within : (a b : ℕ) → not (ltb a b) ≡ true → b ≤ a
  within a b h = ground arith

  allowed : (a b : ℕ) → b ≤ a → not (ltb a b) ≡ true
  allowed a b h = ground arith

  guard-ok :
      (b : Bool) (e : Error) (next : Result (Unit {0}))
      → (guard b e >>= λ _. next) ≡ ok tt
      → (b ≡ true) × (next ≡ ok tt)
  guard-ok true e next h = (refl, h)
  guard-ok false e next h = cc

  guard-passed :
      (b : Bool) (e : Error) (next : Result (Unit {0}))
      → b ≡ true
      → next ≡ ok tt
      → (guard b e >>= λ _. next) ≡ ok tt
  guard-passed true e next t h = h
  guard-passed false e next t h = cc

  special-passed :
      (required has : Bool)
      → (not (required && not has) ≡ true) ↔ ((required ≡ false) ⊎ (has ≡ true))
  special-passed false has = (λ _. inl refl, λ _. refl)
  special-passed true true = (λ _. inr refl, λ _. refl)
  special-passed true false = (λ h. cc, λ h. elim h [ inl e ↦ cc | inr e ↦ cc ])

  -- A new password is accepted exactly if it follows the policy.
  pub validate_new_password_iff :
      (user_id : ℕ) (password : Text) (rows : List UserPasswordHistory)
      → (validate_new_password settings is_digit password_verify user_id password rows ≡ ok tt)
        ↔ FollowsPolicy user_id password rows
  unfolding validate_new_password is_has_number is_has_letter is_has_special_char
  validate_new_password_iff u password rows =
      let required = settings.user_password_require_special_char in
      let special = special-passed required (any is_special password) in
      let history = take settings.user_password_history_check_count (get_by_user_id u rows) in
      let b1 = not (ltb (length password) settings.user_password_min_length) in
      let b2 = not (ltb settings.user_password_max_length (length password)) in
      let b3 = any is_digit password in
      let b4 = any is_letter password in
      let b5 = not (required && not (any is_special password)) in
      let e1 = too_short settings is_digit password_verify in
      let e2 = too_long settings is_digit password_verify in
      let e3 = request_error (codes "密码必须包含数字") in
      let e4 = request_error (codes "密码必须包含字母") in
      let e5 = request_error (codes "密码必须包含特殊字符（如：!@#$%）") in
      let n5 = check_reuse settings is_digit password_verify password history in
      let n4 = guard b5 e5 >>= λ _. n5 in
      let n3 = guard b4 e4 >>= λ _. n4 in
      let n2 = guard b3 e3 >>= λ _. n3 in
      let n1 = guard b2 e2 >>= λ _. n2 in
      (
        λ h.
            let (l, h1) = guard-ok b1 e1 n1 h in
            let (s, h2) = guard-ok b2 e2 n2 h1 in
            let (d, h3) = guard-ok b3 e3 n3 h2 in
            let (c, h4) = guard-ok b4 e4 n4 h3 in
            let (x, h5) = guard-ok b5 e5 n5 h4 in
            record {
              long = within (length password) settings.user_password_min_length l;
              short = within settings.user_password_max_length (length password) s;
              digit = d;
              letter = c;
              special = special.0 x;
              fresh = (check_reuse-ok password history).0 h5;
            },
        λ f. guard-passed b1 e1 n1 (allowed _ _ f.long) (
            guard-passed b2 e2 n2 (allowed _ _ f.short) (
              guard-passed b3 e3 n3 f.digit (
                guard-passed b4 e4 n4 f.letter (
                  guard-passed b5 e5 n5 (special.1 f.special)
                    ((check_reuse-ok password history).1 f.fresh))))),
      )

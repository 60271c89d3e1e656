-- ===== src/Admin/Redis/Keys.antt =====
-- The keys of users and of their sessions: `{prefix}:{user_id}` and `{prefix}:{user_id}:{session}`.
use rag_service.Prelude.{
  ℕ, ◌≤◌, Text, codes, true, false, [], ◌∷◌, ◌++◌, text_eq, text_eq-false, text_eq_sound,
  text_eq_refl, ◌≡◌, refl, ap, sym, ◌∙◌, inl, inr, arith, Bool-cases, show_nat, show_nat-injective,
  append_assoc, append_cancel, All, show_nat-digits,
}
use rag_service.Rag.Indexing.{starts_with}
use rag_service.Admin.Redis.{below}

unfoldable pub user_key : Text → ℕ → Text
user_key prefix user_id = prefix ++ (codes ":" ++ show_nat user_id)

unfoldable pub session_key : Text → ℕ → Text → Text
unfolding user_key
session_key prefix user_id session_uuid = user_key prefix user_id ++ (codes ":" ++ session_uuid)

starts_with-append : (s t : Text) → starts_with (s ++ t) s ≡ true
unfolding starts_with
starts_with-append [] t = refl
starts_with-append (c ∷ s) t = ground (arith, starts_with-append s t)

starts_with_common : (p s t : Text) → starts_with (p ++ s) (p ++ t) ≡ starts_with s t
unfolding starts_with
starts_with_common [] s t = refl
starts_with_common (c ∷ p) s t = ground (arith, starts_with_common p s t)

-- Texts without a colon, each followed by one, are equal where one begins with the other.
colon_ends :
    (s t u : Text)
    → All (λ c. (48 ≤ c) × (c ≤ 57)) s
    → All (λ c. (48 ≤ c) × (c ≤ 57)) t
    → starts_with (s ++ (58 ∷ u)) (t ++ (58 ∷ [])) ≡ true
    → s ≡ t
unfolding starts_with
colon_ends [] [] u hs ht h = refl
colon_ends [] (d ∷ t) u hs ht h = absurd (ground arith)
colon_ends (c ∷ s) [] u hs ht h = absurd (ground arith)
colon_ends (c ∷ s) (d ∷ t) u hs ht h = ground (arith, colon_ends s t u)

-- Every session key of a user lies below the user's key.
pub below-session_key :
    (prefix : Text) (user_id : ℕ) (session_uuid : Text)
    → below (user_key prefix user_id) (session_key prefix user_id session_uuid) ≡ true
unfolding session_key
below-session_key prefix u s =
    rw (← append_assoc (user_key prefix u) (codes ":") s)
      (starts_with-append (user_key prefix u ++ codes ":") s)

-- A session key of another user does not.
pub below-session_key_ne :
    (prefix : Text) (u v : ℕ) (session_uuid : Text)
    → ¬ (u ≡ v)
    → below (user_key prefix v) (session_key prefix u session_uuid) ≡ false
unfolding session_key user_key starts_with
below-session_key_ne prefix u v s ne =
    let su = 58 ∷ show_nat u in
    let sv = 58 ∷ show_nat v in
    rw
      (
        append_assoc prefix su (58 ∷ s),
        append_assoc prefix sv (58 ∷ []),
        starts_with_common prefix (su ++ 58 ∷ s) (sv ++ 58 ∷ []),
      )
      (elim (Bool-cases (starts_with (su ++ 58 ∷ s) (sv ++ 58 ∷ []))) [
        | inl e ↦ absurd (
            ne (
              show_nat-injective u v
                (colon_ends (show_nat u) (show_nat v) s (show_nat-digits u) (show_nat-digits v) e)))
        | inr e ↦ e
      ])

pub session_key-injective :
    (prefix : Text) (u : ℕ) (s t : Text) → session_key prefix u s ≡ session_key prefix u t → s ≡ t
unfolding session_key
session_key-injective prefix u s t e =
    append_cancel (58 ∷ []) s t (append_cancel (user_key prefix u) _ _ e)

pub true-ne-false : ¬ (true ≡ false)
true-ne-false h = cc

pub text_eq-session_key :
    (prefix : Text) (u : ℕ) (s t : Text)
    → text_eq (session_key prefix u s) (session_key prefix u t) ≡ text_eq s t
text_eq-session_key prefix u s t = elim (Bool-cases (text_eq s t)) [
  | inl e ↦ rw (text_eq_sound s t e, text_eq_refl (session_key prefix u t), text_eq_refl t)
  | inr e ↦
      text_eq-false _ _ (λ same.
        true-ne-false
          (sym (text_eq_refl s) ∙ ap (text_eq s) (session_key-injective prefix u s t same) ∙ e))
      ∙ sym e
]

colon-ne-digit : (s x t : Text) → All (λ c. (48 ≤ c) × (c ≤ 57)) t → s ++ (58 ∷ x) ≡ t → ⊥
colon-ne-digit [] x [] h e = cc
colon-ne-digit [] x (d ∷ t) h e = absurd (ground arith)
colon-ne-digit (c ∷ s) x [] h e = cc
colon-ne-digit (c ∷ s) x (d ∷ t) h e = colon-ne-digit s x t h.1 (cc)

-- The key of a user is not that of a session.
pub text_eq-user_key :
    (prefix : Text) (u v : ℕ) (x : Text)
    → text_eq (session_key prefix v x) (user_key prefix u) ≡ false
unfolding session_key user_key
text_eq-user_key prefix u v x = text_eq-false _ _ (λ same.
    colon-ne-digit (show_nat v) x (show_nat u) (show_nat-digits u) (
      append_cancel (58 ∷ []) _ _
        (append_cancel prefix _ _ (sym (append_assoc prefix (58 ∷ show_nat v) (58 ∷ x)) ∙ same))))

-- Sessions of different users have different keys.
pub session_key-ne :
    (prefix : Text) (u v : ℕ) (s x : Text)
    → ¬ (v ≡ u)
    → text_eq (session_key prefix u s) (session_key prefix v x) ≡ false
session_key-ne prefix u v s x ne = text_eq-false _ _ (λ same. true-ne-false (
    sym (below-session_key prefix u s)
    ∙ ap (below (user_key prefix u)) same
    ∙ below-session_key_ne prefix v u x ne))

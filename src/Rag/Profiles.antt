-- ===== src/Rag/Profiles.antt =====
-- backend/app/rag/service/index_profile_service.py. The hash of the current settings, the SHA-256 of
-- their JSON text, is a parameter.
use rag_service.Prelude.{
  ◌+◌, Text, text_eq, text_eq_refl, [], ◌∷◌, ◌++◌, Option, none, some, find, find-append, ◌≡◌, ◌∙◌,
  refl,
}
use rag_service.Rag.Model.{IndexProfile}
use rag_service.Rag.World.{World}

-- `db.add(profile)` and `db.flush()`
add_profile : Text → World → IndexProfile × World
add_profile profile_hash w =
    let row : IndexProfile = record { id = w.next_id; profile_hash = profile_hash } in
    (
      row,
      record w { db = record w.db { profiles = w.profiles ++ row ∷ []; next_id = w.next_id + 1 } },
    )

reuse_profile : Text → Option IndexProfile → World → IndexProfile × World
unfolding add_profile
reuse_profile profile_hash (some profile) w = (profile, w)
reuse_profile profile_hash none w = add_profile profile_hash w

unfoldable pub get_or_create_index_profile : Text → World → IndexProfile × World
unfolding reuse_profile
get_or_create_index_profile profile_hash w =
    reuse_profile profile_hash (find (λ p. text_eq p.profile_hash profile_hash) w.profiles) w

reused :
    (profile_hash : Text) (found : Option IndexProfile) (w : World)
    → find (λ p. text_eq p.profile_hash profile_hash) w.profiles ≡ found
    → let (p, w') = reuse_profile profile_hash found w in
      find (λ p. text_eq p.profile_hash profile_hash) w'.profiles ≡ some p
unfolding reuse_profile add_profile find
reused h (some p) w e = e
reused h none w e = find-append _ w.profiles _ e ∙ (rw (text_eq_refl h))

-- The profile of a hash is made once: the next call with it returns the same row and changes nothing.
pub index_profile_once :
    (profile_hash : Text) (w : World)
    → let (p, w') = get_or_create_index_profile profile_hash w in
      get_or_create_index_profile profile_hash w' ≡ (p, w')
unfolding get_or_create_index_profile
index_profile_once h w =
    rw (reused h (find (λ p. text_eq p.profile_hash h) w.profiles) w refl)
      (unfold reuse_profile in refl)

-- A profile changes no document and no event.
pub profile_frame :
    (profile_hash : Text) (w : World)
    → let w' = (get_or_create_index_profile profile_hash w).1 in
      (w'.documents ≡ w.documents) × (w'.events ≡ w.events) × (w'.now ≡ w.now)
unfolding get_or_create_index_profile
profile_frame h w = frame (find (λ p. text_eq p.profile_hash h) w.profiles)
  where
    frame :
        (found : Option IndexProfile)
        → let w' = (reuse_profile h found w).1 in
          (w'.documents ≡ w.documents) × (w'.events ≡ w.events) × (w'.now ≡ w.now)
    frame (some p) = unfold reuse_profile in (refl, refl, refl)
    frame none = unfold reuse_profile in (refl, refl, refl)

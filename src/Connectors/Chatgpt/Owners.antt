-- ===== src/Connectors/Chatgpt/Owners.antt =====
-- Where an owner's export is found.
use memapp.Prelude.{
  String, ◌≡◌, refl, sym, ap, ◌∙◌, ◌⊎◌, inl, inr, Bool, true, Option, none, some, List, [], ◌∷◌,
  ◌++◌, Bool-cases, first, last?, All, keep-All,
}
use mathlib.Core.List.{append_assoc}
use memapp.Prelude.Dict.{some-inj}
use memapp.Prelude.Order.{sort_by, sort_by-All, text_le}
use memapp.Prelude.Texts.{◌<>◌}
use memapp.Prelude.Result.{ok, value_error, ok-inj, if_returned}
use memapp.Connectors.Chatgpt.Exports.{
  FilePath, Files, safe_owner, candidate_files, ends_with, zips_in, last_zip, in_directory,
  or_in_directory, located, resolve_export_path,
}
use memapp.Connectors.Chatgpt.Located.{
  NoSlash, Clean, goes_down, safe_owner-NoSlash, safe_owner-starts_alnum, append-NoSlash,
  append-starts_alnum, join_path-Clean, Clean-goes_down, ends_with-goes_down,
}

-- The components that the owner's id gives
abbrev pub IsOwn : String → List String → Type 0
IsOwn owner_id rest =
    ((file : String) × (rest ≡ owner_id ∷ file ∷ []))
    ⊎ ((rest ≡ (owner_id <> ".json") ∷ []) ⊎ (rest ≡ (owner_id <> ".zip") ∷ []))

-- The path lies below the directory, and is the owner's.
pub record IsBelow (dir : FilePath) (owner_id : String) (path : FilePath) : Type 0 where
  pub absolute : path.absolute ≡ dir.absolute
  pub rest : List String
  pub parts : path.parts ≡ dir.parts ++ rest
  pub downwards : All (λ s. goes_down s ≡ true) rest
  pub own : IsOwn owner_id rest

first-All {ℓ κ} :
    {A : Type ℓ} (P : A → Type κ) (p : A → Bool) (xs : List A) {x : A}
    → All P xs
    → first p xs ≡ some x
    → P x
first-All P p [] h e = absurd cc
first-All P p (y ∷ ys) h e = elim (Bool-cases (p y)) [
  | inl t ↦ rw (some-inj (sym (rw t at e))) h.0
  | inr f ↦ first-All P p ys h.1 (rw f at e)
]

last?-All {ℓ κ} :
    {A : Type ℓ} (P : A → Type κ) (xs : List A) {x : A} → All P xs → last? xs ≡ some x → P x
last?-All P [] h e = absurd cc
last?-All P (y ∷ []) h e = rw (some-inj (sym e)) h.0
last?-All P (y ∷ z ∷ zs) h e = last?-All P (z ∷ zs) h.1 e

module _ (dir : FilePath) (owner_id : String) (clean : Clean owner_id) where
  two-IsBelow :
      (file : String)
      → goes_down file ≡ true
      → IsBelow dir owner_id
          (record { absolute = dir.absolute; parts = (dir.parts ++ owner_id ∷ []) ++ file ∷ [] })
  two-IsBelow file down = record {
    absolute = refl;
    rest = owner_id ∷ file ∷ [];
    parts = append_assoc dir.parts (owner_id ∷ []) (file ∷ []);
    downwards = (Clean-goes_down owner_id clean, (down, tt));
    own = inl (file, refl);
  }

  suffixed : (suffix : String) → NoSlash suffix → Clean (owner_id <> suffix)
  suffixed suffix one =
      (append-NoSlash owner_id suffix clean.0 one, append-starts_alnum owner_id suffix clean.1)

  one-IsBelow :
      (suffix : String)
      → Clean (owner_id <> suffix)
      → ((rest : List String) → rest ≡ (owner_id <> suffix) ∷ [] → IsOwn owner_id rest)
      → IsBelow dir owner_id
          (record { absolute = dir.absolute; parts = dir.parts ++ (owner_id <> suffix) ∷ [] })
  one-IsBelow suffix clean_file own = record {
    absolute = refl;
    rest = (owner_id <> suffix) ∷ [];
    parts = refl;
    downwards = (Clean-goes_down (owner_id <> suffix) clean_file, tt);
    own = own ((owner_id <> suffix) ∷ []) refl;
  }

  candidate_files-IsBelow : All (IsBelow dir owner_id) (candidate_files dir owner_id)
  unfolding candidate_files
  candidate_files-IsBelow =
      let json = suffixed ".json" (refl, (refl, (refl, (refl, (refl, tt))))) in
      let zip = suffixed ".zip" (refl, (refl, (refl, (refl, tt)))) in
      rw
        (
          join_path-Clean dir owner_id clean,
          join_path-Clean dir (owner_id <> ".json") json,
          join_path-Clean dir (owner_id <> ".zip") zip,
        )
        (
          two-IsBelow "conversations.json" refl,
          (
            one-IsBelow ".json" json (λ rest e. inr (inl e)),
            (one-IsBelow ".zip" zip (λ rest e. inr (inr e)), tt),
          ),
        )

  module _ (files : Files) where
    zip-IsBelow :
        (o : Option String) (path : FilePath)
        → ((file : String) → o ≡ some file → goes_down file ≡ true)
        → last_zip files (record { absolute = dir.absolute; parts = dir.parts ++ owner_id ∷ [] }) o
          ≡ ok path
        → IsBelow dir owner_id path
    zip-IsBelow none path down h = absurd cc
    zip-IsBelow (some file) path down h = rw (sym (ok-inj h)) (two-IsBelow file (down file refl))

    zips_in-goes_down :
        (path : FilePath) (file : String)
        → last? (sort_by text_le (zips_in files path)) ≡ some file
        → goes_down file ≡ true
    zips_in-goes_down path file h =
        let zips =
          keep-All (λ s. goes_down s ≡ true) (ends_with ".zip") (files.names_in path)
            ends_with-goes_down in
        last?-All (λ s. goes_down s ≡ true) (sort_by text_le (zips_in files path))
          (sort_by-All text_le (λ s. goes_down s ≡ true) (zips_in files path) zips) h

    in_directory-IsBelow :
        (path : FilePath)
        → in_directory files
            (record { absolute = dir.absolute; parts = dir.parts ++ owner_id ∷ [] })
          ≡ ok path
        → IsBelow dir owner_id path
    in_directory-IsBelow path h =
        let here : FilePath = record {
          absolute = dir.absolute;
          parts = dir.parts ++ owner_id ∷ [];
        } in
        elim (Bool-cases (files.is_dir here)) [
          | inl e ↦
              zip-IsBelow (last? (sort_by text_le (zips_in files here))) path
                (λ file found. zips_in-goes_down here file found) (rw e at h)
          | inr e ↦ absurd (let never = rw e at h in cc)
        ]

    or_in_directory-IsBelow :
        (found : Option FilePath) (path : FilePath)
        → ((file : FilePath) → found ≡ some file → IsBelow dir owner_id file)
        → or_in_directory files found
            (record { absolute = dir.absolute; parts = dir.parts ++ owner_id ∷ [] })
          ≡ ok path
        → IsBelow dir owner_id path
    or_in_directory-IsBelow none path below h = in_directory-IsBelow path h
    or_in_directory-IsBelow (some file) path below h = rw (sym (ok-inj h)) (below file refl)

-- If an export is located, then it lies below the export directory: its path continues the directory's
-- by components that are neither empty nor dots, the first of them the owner's id, or the id with the
-- ending `.json` or `.zip`.
pub resolve_export_path-IsBelow :
    (files : Files) (dir : FilePath) (owner_id : String) (path : FilePath)
    → resolve_export_path files (some dir) owner_id ≡ ok path
    → IsBelow dir owner_id path
unfolding resolve_export_path
resolve_export_path-IsBelow files dir owner_id path h =
    let (safe, rest) =
      if_returned (safe_owner owner_id) (located files (some dir) owner_id) value_error h in
    let clean : Clean owner_id =
      (safe_owner-NoSlash owner_id safe, safe_owner-starts_alnum owner_id safe) in
    or_in_directory-IsBelow dir owner_id clean files
      (first files.is_file (candidate_files dir owner_id)) path
      (λ file found.
        first-All (IsBelow dir owner_id) files.is_file (candidate_files dir owner_id)
          (candidate_files-IsBelow dir owner_id clean) found)
      (sym (
          ap (or_in_directory files (first files.is_file (candidate_files dir owner_id)))
            (join_path-Clean dir owner_id clean))
        ∙ rest)

-- ===== src/Web/Forms/Saving.antt =====
-- What a saved form leaves of the fields that it does not show.
use syno_plex_change_monitor.Base.{
  ◌≡◌, ◌≢◌, ◌⊎◌, refl, sym, ◌∙◌, ap, Bool, true, false, Option, none, some, List, [], ◌∷◌, inl, inr,
  nat_eq, list_eq, ℕ,
}
use mathlib.Core.Path.{subst}
use mathlib.Core.Option.{some-injective}
use syno_plex_change_monitor.Base.Partial.{through_some}
use syno_plex_change_monitor.Base.Text.{Text, codes}
use syno_plex_change_monitor.Models.{Server}
use syno_plex_change_monitor.Models.EventTypes.{parse_values}
use syno_plex_change_monitor.Db.Schemas.{ServerUpdate, FolderCreate, unset}
use syno_plex_change_monitor.Db.Tables.{Tables, ok, find_server}
use syno_plex_change_monitor.Db.Repo.{
  update_server, update_server_with_folders, set_server_folders, set_secret, set_required,
}
use syno_plex_change_monitor.Db.Repo.Keys.{ok-injective, through}
use syno_plex_change_monitor.Db.Repo.ServerKeys.{IsUpdate, update_server-IsUpdate}
use syno_plex_change_monitor.Web.Forms.{
  ServerForm, update_input, secret_change, scan_mode_of, debounce_mode_of, webhook_preset_of,
  getlist,
}

abbrev Hidden : ServerForm → ServerUpdate → Type 0
Hidden f update = (update.type ≡ unset) × (update.secret ≡ secret_change f.clear_secret f.secret)

update_input-Hidden :
    (f : ServerForm) (update : ServerUpdate) → update_input f ≡ some update → Hidden f update
unfolding update_input
update_input-Hidden f update = through_some (Hidden f) (scan_mode_of f.scan_mode) _ update λ _.
    through_some (Hidden f) (debounce_mode_of f.debounce_mode) _ update λ _.
      through_some (Hidden f) (parse_values (getlist (codes "event_types") f.fields)) _ update λ _.
        through_some (Hidden f) (webhook_preset_of f.webhook_payload_preset) _ update
          λ _ e. subst (Hidden f) (some-injective _ _ e) (refl, refl)

-- The stored secret after a form: cleared, kept, or replaced.
abbrev pub SecretAfter : (Text → Text) → ServerForm → Option Text → Option Text → Type 0
SecretAfter encrypt f old new =
    ((f.clear_secret ≡ true) × (new ≡ none))
    ⊎ (((f.clear_secret ≡ false) × (f.secret ≡ []) × (new ≡ old))
        ⊎ ((f.clear_secret ≡ false) × (f.secret ≢ []) × (new ≡ some (encrypt f.secret))))

secret_after :
    (encrypt : Text → Text) (f : ServerForm) (old : Option Text)
    → SecretAfter encrypt f old (set_secret encrypt (secret_change f.clear_secret f.secret) old)
secret_after encrypt f old = go f.clear_secret f.secret
  where
    go :
        (clear : Bool) (secret : Text)
        → let new = set_secret encrypt (secret_change clear secret) old in
          ((clear ≡ true) × (new ≡ none))
          ⊎ (((clear ≡ false) × (secret ≡ []) × (new ≡ old))
              ⊎ ((clear ≡ false) × (secret ≢ []) × (new ≡ some (encrypt secret))))
    go true secret = inl (refl, refl)
    go false [] = inr (inl (refl, refl, refl))
    go false (c ∷ secret) = inr (inr (refl, (λ h. cc), refl))

module _ (fresh : List ℕ → ℕ) (encrypt : Text → Text) where
  -- Where a form of a server's page can be read and the repository saves it with the page's
  -- folders: the server keeps its id and its type, and its stored secret is cleared if the form
  -- asks for it, is kept if the form's field is empty, and else is the encryption of the field.
  pub update_form_lem :
      (f : ServerForm) (update : ServerUpdate) (folders : List FolderCreate) (id : ℕ) (t : Tables)
      (old : Server) (saved : Server × Tables)
      → update_input f ≡ some update
      → find_server id t.servers ≡ some old
      → update_server_with_folders fresh encrypt id update folders t ≡ ok saved
      → (saved.0.id ≡ old.id)
        × (saved.0.type ≡ old.type)
        × SecretAfter encrypt f old.secret_encrypted saved.0.secret_encrypted
  unfolding update_server_with_folders
  update_form_lem f update folders id t old saved e q u =
      let (same_type, secret) = update_input-Hidden f update e in
      let (same_id, typed, stored) =
        through (λ (p : Server × Tables). IsUpdate encrypt update old p.0)
          (update_server fresh encrypt id update t)
          (λ p. ok (p.0, set_server_folders fresh p.0.id folders p.1)) saved
          (λ p updated h.
            subst (λ (p : Server × Tables). IsUpdate encrypt update old p.0) (ok-injective _ _ h)
              (update_server-IsUpdate fresh encrypt id update t old p q updated))
          u in
      (
        same_id,
        sym (
            ok-injective _ _
              (subst (λ change. set_required change old.type ≡ ok saved.0.type) same_type typed)),
        subst (SecretAfter encrypt f old.secret_encrypted)
            (sym (stored ∙ ap (λ change. set_secret encrypt change old.secret_encrypted) secret))
            (secret_after encrypt f old.secret_encrypted),
      )

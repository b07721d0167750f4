-- ===== src/Server/Profiles/Linking.antt =====
-- What linking an account does to a person's row, and to a synchronisation that is under way:
-- user_profiles.ts, with the handler of api/routes/checkins.ts.
use Prim.Native.String.{String}
use warsaw_beer_bot.Base.{
  ℕ, suc, Bool, true, false, Option, some, List, [], ◌∷◌, ◌==◌, ◌≡◌, refl, ap, ◌∙◌, inl, inr,
  Bool-cases, arith,
}
use warsaw_beer_bot.Base.Strings.{same_string}
use warsaw_beer_bot.Base.Decimal.{Text}
use warsaw_beer_bot.Sync.Local.{Feed}
use warsaw_beer_bot.Server.{
  ProfileRow, Tables, get_profile, get_history_owner, owner_with, username_of, account_key_for,
}
use warsaw_beer_bot.Server.Profiles.{
  is_none, update_profile, bump, name, relink, link_with, set_untappd_username,
}
use warsaw_beer_bot.Server.Feed.{Calls, refused, account_changed, guarded, linked_only, post_sync}

find_updated :
    (telegram_id : ℕ) (f : ProfileRow → ProfileRow) (profiles : List ProfileRow) (p : ProfileRow)
    → ((q : ProfileRow) → (f q).telegram_id ≡ q.telegram_id)
    → get_profile profiles telegram_id ≡ some p
    → get_profile (update_profile telegram_id f profiles) telegram_id ≡ some (f p)
unfolding get_profile update_profile
find_updated telegram_id f [] p keeps h = cc
find_updated telegram_id f (q ∷ profiles) p keeps h =
    elim (Bool-cases (q.telegram_id == telegram_id)) [
      | inl e ↦
          let there : ((f q).telegram_id == telegram_id) ≡ true =
            ap (λ n. n == telegram_id) (keeps q) ∙ e in
          let same : q ≡ p = first (rw e at h) in rw (e, there) (ap (λ x. some (f x)) same)
      | inr e ↦ rw (e, e) (find_updated telegram_id f profiles p keeps (rw e at h))
    ]
  where
    first : some q ≡ some p → q ≡ p
    first k = cc

module _ {B : Type 0} (lower : String → String) (telegram_id : ℕ) (username : String) (t : Tables B)
    (p : ProfileRow) where
  abbrev first_link : Bool
  first_link = is_none p.untappd_username

  relinked_row :
      get_profile t.profiles telegram_id ≡ some p
      → get_profile
          (relink lower telegram_id (lower username) p.untappd_username t).profiles
          telegram_id
        ≡ some (bump first_link p)
  relinked_row found = elim (Bool-cases first_link) [
    | inl e ↦ rw e (find_updated telegram_id (bump true) t.profiles p (λ q. refl) found)
    | inr e ↦ rw e (find_updated telegram_id (bump false) t.profiles p (λ q. refl) found)
  ]

  linked_row :
      get_profile t.profiles telegram_id ≡ some p
      → same_string (account_key_for lower p.untappd_username) (lower username) ≡ false
      → get_profile (link_with lower telegram_id username (some p) t).profiles telegram_id
        ≡ some (name username (bump first_link p))
  linked_row found other = rw other (
      find_updated telegram_id (name username) _ (bump first_link p) (λ q. refl)
        (relinked_row found))

  -- A new account raises the revision of the link by one.
  pub set_untappd_username-row :
      get_profile t.profiles telegram_id ≡ some p
      → same_string (account_key_for lower p.untappd_username) (lower username) ≡ false
      → get_profile (set_untappd_username lower telegram_id username t).profiles telegram_id
        ≡ some (name username (bump first_link p))
  unfolding set_untappd_username
  set_untappd_username-row found other =
      ap (λ o. get_profile (link_with lower telegram_id username o t).profiles telegram_id) found
      ∙ linked_row found other

module _ {B : Type 0} (calls : Calls B) (telegram_id : ℕ) (feed : Feed) (max_id : Option Text) where
  refused_old :
      (t : Tables B) (p : ProfileRow) (username : String) (revision : ℕ)
      → get_profile t.profiles telegram_id ≡ some p
      → p.untappd_username ≡ some username
      → same_string username "" ≡ false
      → p.untappd_link_revision ≡ suc revision
      → post_sync calls telegram_id feed max_id (some revision) t ≡ (t, refused account_changed)
  unfolding post_sync get_history_owner
  refused_old t p username revision found named nonempty later =
      let older : (revision == suc revision) ≡ false = ground arith in
      ap
        (λ o.
          linked_only calls (username_of o)
            (guarded calls telegram_id o (owner_with calls.to_lower_case telegram_id o) feed max_id
              (some revision) t)
            t)
        found
      ∙ rw (named, nonempty, later, older)

  -- A person links another account while a step is under way: the step's page, which carries the
  -- revision that it began with, is refused and changes nothing.
  pub relinked-refused :
      (username : String) (t : Tables B) (p : ProfileRow)
      → get_profile t.profiles telegram_id ≡ some p
      → same_string
          (account_key_for calls.to_lower_case p.untappd_username)
          (calls.to_lower_case username)
        ≡ false
      → same_string username "" ≡ false
      → post_sync calls telegram_id feed max_id
          (some p.untappd_link_revision)
          (set_untappd_username calls.to_lower_case telegram_id username t)
        ≡ (set_untappd_username calls.to_lower_case telegram_id username t, refused account_changed)
  relinked-refused username t p found other nonempty =
      refused_old _ (name username (bump (is_none p.untappd_username) p)) username
        p.untappd_link_revision
        (set_untappd_username-row calls.to_lower_case telegram_id username t p found other) refl
        nonempty refl

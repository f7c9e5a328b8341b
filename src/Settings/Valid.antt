-- ===== src/Settings/Valid.antt =====
-- Settings that were loaded refer to profiles that they hold.
pub mod Kept
use mathlib.Core.Path.{subst}
use remote_executor.Base.{
  ◌≡◌, ◌⊎◌, refl, inl, inr, Bool, true, false, not, ◌&&◌, Option, none, some, [], ◌++◌, arith,
  is_some, Bool-cases, Option-cases,
}
use remote_executor.Base.Outcome.{Outcome, ok, err, bind-eq-ok}
use remote_executor.Base.Yields.{Yields, Yields-bind}
use remote_executor.Text.{Text, codes, is_empty, trim}
use remote_executor.Json.{json_merge}
use remote_executor.Dict.{lookup, contains_key}
use remote_executor.Settings.{
  Chain, or_cause, with_context, FileStamp, ShellProfile, ReSettings, SettingsStore,
  ShellResolution, default_settings, SettingsFiles, Codec, Machine,
}
use remote_executor.Settings.Shell.{
  resolve_profile_name, with_default_profiles, validate_shell_profile_ref, validate_shell_settings,
  configured_shell, resolve_candidate, resolve_program, first_candidate, resolve_shell, resolution,
  no_candidate,
}
use remote_executor.Settings.Load.{load_base, load_settings_value, load_settings_layers}

-- the profile that the name stands for is there
abbrev pub HasProfile : ReSettings → Text → Type 0
HasProfile settings name = contains_key (resolve_profile_name name) settings.shells.profiles ≡ true

-- Both configured shells stand for profiles that are there.
pub record IsConfigured (settings : ReSettings) : Type 0 where
  pub default_there : HasProfile settings settings.shells.default
  pub interactive_there : HasProfile settings settings.shells.interactive

validate_shell_profile_ref-HasProfile :
    (field value : Text) (settings : ReSettings) (path : Text)
    → validate_shell_profile_ref field value settings path ≡ ok tt
    → HasProfile settings value
unfolding validate_shell_profile_ref
validate_shell_profile_ref-HasProfile field value settings path h =
    elim (Bool-cases (contains_key (resolve_profile_name value) settings.shells.profiles)) [
      | inl e ↦ e
      | inr e ↦ ground arith
    ]

validate_shell_settings-IsConfigured :
    (settings : ReSettings) (path : Text)
    → validate_shell_settings settings path ≡ ok tt
    → IsConfigured settings
unfolding validate_shell_settings
validate_shell_settings-IsConfigured settings path h =
    let (u, e, h') =
      bind-eq-ok
        (validate_shell_profile_ref (codes "default") settings.shells.default settings path) _ h in
    record {
      default_there =
          validate_shell_profile_ref-HasProfile (codes "default") settings.shells.default settings
            path e;
      interactive_there =
          validate_shell_profile_ref-HasProfile (codes "interactive") settings.shells.interactive
            settings path h';
    }

module _ {S : Type 0} (files : SettingsFiles S) (codec : Codec) where
  pub load_settings_layers-IsConfigured :
      (st : S) (base_path : Option Text) (path : Text)
      → Yields
          (λ (r : ReSettings × Option FileStamp × Option FileStamp). IsConfigured r.0)
          (load_settings_layers files codec st base_path path)
  unfolding load_settings_layers
  load_settings_layers-IsConfigured st base_path path =
      Yields-bind _ (or_cause (codec.to_value default_settings)) _ (λ start e.
        Yields-bind _ (load_base files codec st base_path start) _ (λ (value, base_stamp) e'.
          Yields-bind _ (load_settings_value files codec st path) _ (λ (overlay, stamp) e''.
            Yields-bind _
              (with_context (codes "failed to parse merged settings for " ++ path)
                (codec.from_value (json_merge value overlay)))
              _
              (λ parsed e3.
                Yields-bind _ (validate_shell_settings (with_default_profiles parsed) path) _
                  (λ u valid.
                    validate_shell_settings-IsConfigured (with_default_profiles parsed) path
                      valid)))))

is_some-eq_some : {A : Type 0} (o : Option A) → is_some o ≡ true → (a : A) × (o ≡ some a)
is_some-eq_some none h = cc
is_some-eq_some (some a) h = (a, refl)

configured_shell-HasProfile :
    (settings : ReSettings) (interactive : Bool)
    → IsConfigured settings
    → HasProfile settings (configured_shell settings [] interactive)
unfolding configured_shell
configured_shell-HasProfile settings interactive h =
    elim (Bool-cases (interactive && not (is_empty (trim settings.shells.interactive)))) [
      | inl e ↦ rw e h.interactive_there
      | inr e ↦ rw e h.default_there
    ]

-- What `resolve_shell` does for a profile that is there: the first candidate that is found, or an
-- error that no candidate was.
abbrev pub Resolves :
    (machine : Machine) (exists : Text → Bool) (store : SettingsStore) (name : Text)
    (profile : ShellProfile) (search_root : Option Text)
    → Outcome Chain ShellResolution
    → Type 0
Resolves machine exists store name profile search_root result =
    ((r : ShellResolution) × (result ≡ ok r)
      × (first_candidate (resolve_program machine exists) store search_root profile.candidates
          ≡ some r.program)
      × (r.profile ≡ name)
      × (r.settings_path ≡ store.path))
    ⊎ ((first_candidate (resolve_program machine exists) store search_root profile.candidates
          ≡ none)
        × (e : Chain) × (result ≡ err e))

pub resolve_shell-Resolves :
    (machine : Machine) (exists : Text → Bool) (store : SettingsStore) (settings : ReSettings)
    (raw : Text) (command : Option Text) (interactive : Bool) (search_root : Option Text)
    → let name = resolve_profile_name (configured_shell settings (trim raw) interactive) in
      (profile : ShellProfile)
      → lookup name settings.shells.profiles ≡ some profile
      → Resolves machine exists store name profile search_root
          (resolve_shell machine exists store settings raw command interactive search_root)
unfolding resolve_shell resolve_candidate
resolve_shell-Resolves machine exists store settings raw command interactive search_root profile
      there =
    let configured = configured_shell settings (trim raw) interactive in
    let name = resolve_profile_name configured in
    elim (Option-cases
      (first_candidate (resolve_program machine exists) store search_root profile.candidates)) [
        | inl missing ↦ inr (missing, no_candidate name profile, rw (there, missing) refl)
        | inr (program, found) ↦ inl (
          resolution store (trim raw) configured command interactive profile program,
          rw (there, found) refl,
          found,
          refl,
          refl,
        )
      ]

-- The shell that the settings name for a call that names none: a call for a terminal takes the
-- interactive one, where it is not blank, and every other call the default.
pub data Named (settings : ReSettings) : Bool → Text → Type 0 where
  for_command : Named settings false settings.shells.default
  for_terminal :
      is_empty (trim settings.shells.interactive) ≡ false
      → Named settings true settings.shells.interactive
  for_blank :
      is_empty (trim settings.shells.interactive) ≡ true
      → Named settings true settings.shells.default

configured_shell-Named :
    (settings : ReSettings) (interactive : Bool)
    → Named settings interactive (configured_shell settings [] interactive)
unfolding configured_shell
configured_shell-Named settings false = for_command
configured_shell-Named settings true =
    elim (Bool-cases (is_empty (trim settings.shells.interactive))) [
      | inl blank ↦ rw blank (for_blank blank)
      | inr full ↦ rw full (for_terminal full)
    ]

-- With configured settings a request that names no shell finds the profile of the shell that the settings
-- name for its kind of call: the answer is that profile's first candidate that the machine has, and the
-- only error is that it has none.
pub resolve_shell-IsConfigured :
    (machine : Machine) (exists : Text → Bool) (store : SettingsStore) (settings : ReSettings)
    (raw : Text) (command : Option Text) (interactive : Bool) (search_root : Option Text)
    → IsConfigured settings
    → trim raw ≡ []
    → (shell : Text) × Named settings interactive shell
      × (profile : ShellProfile) × (lookup (resolve_profile_name shell) settings.shells.profiles
          ≡ some profile)
      × Resolves machine exists store
          (resolve_profile_name shell)
          profile
          search_root
          (resolve_shell machine exists store settings raw command interactive search_root)
resolve_shell-IsConfigured machine exists store settings raw command interactive search_root h
      blank =
    let shell = configured_shell settings [] interactive in
    let (profile, there) =
      is_some-eq_some (lookup (resolve_profile_name shell) settings.shells.profiles)
        (configured_shell-HasProfile settings interactive h) in
    let there' : lookup (resolve_profile_name (configured_shell settings (trim raw) interactive))
          settings.shells.profiles
        ≡ some profile =
      rw blank there in
    (
      shell,
      configured_shell-Named settings interactive,
      profile,
      there,
      subst
          (λ text.
            Resolves machine exists store
              (resolve_profile_name (configured_shell settings text interactive)) profile
              search_root
              (resolve_shell machine exists store settings raw command interactive search_root))
          blank
          (resolve_shell-Resolves machine exists store settings raw command interactive search_root
            profile there'),
    )

-- ===== src/Identity.antt =====
-- The identity of a request (backend/src/work_assistant/identity.py): the validators of a `Principal`,
-- its authentication and the choice of a provider. The display extensions of a Principal, the request
-- and its headers, an external provider and the Unicode category of a character are parameters or
-- left out: an external provider answers a Principal or nothing, or raises, which is nothing too.
pub mod Trusted
pub mod Tests
use Prim.Native.Char.{code}
use work_assistant_agent.Prelude.{
  ℕ, ◌≡◌, ◌≤◌, refl, Bool, true, false, ◌&&◌, ◌||◌, not, String, Option, none, some, List, [], ◌∷◌,
  Result, ok, err, all, any, length, arith, leb, str_eq, eq_iff, is_unique, if◌then◌else◌, inl, inr,
  Bool-cases,
}
use work_assistant_agent.Prelude.Names.{codes, is_space, text_length}
use work_assistant_agent.Capabilities.Decision.{Principal}
use work_assistant_agent.Repository.Records.{ResourceKind}
use work_assistant_agent.Repository.Access.{is_internal, require_owner}
use work_assistant_agent.Repository.Creation.Titles.{collapse}

-- `str.strip`
unfoldable pub strip_start : String → String
unfolding is_space
strip_start String.[] = ""
strip_start (String.◌∷◌ c s) = elim (is_space (code c)) [
  | true ↦ strip_start s
  | false ↦ String.◌∷◌ c s
]

unfoldable pub strip_end : String → String
unfolding is_space
strip_end String.[] = ""
strip_end (String.◌∷◌ c s) = elim (all is_space (codes (String.◌∷◌ c s))) [
  | true ↦ ""
  | false ↦ String.◌∷◌ c (strip_end s)
]

-- `value == value.strip()`
unfoldable pub is_stripped : String → Bool
unfolding strip_start strip_end
is_stripped s = str_eq s (strip_end (strip_start s))

abbrev pub within : ℕ → Option String → Bool
within n none = true
within n (some s) = leb (text_length s) n

pub data AppEnv : Type 0 where
  development test production : AppEnv

pub data IdentityProviderMode : Type 0 where
  anonymous development_header external : IdentityProviderMode

-- The mode is one of three, so the last `raise` of the source is not reached.
pub data IdentityConfigurationError : Type 0 where
  development_identity_provider_in_production external_identity_provider_missing :
      IdentityConfigurationError
  external_identity_provider_unexpected : IdentityConfigurationError

module _ (is_control : ℕ → Bool) where
  unfoldable pub has_control : String → Bool
  has_control s = any is_control (codes s)

  -- `validate_subject`, after the bounds of the field
  unfoldable pub valid_subject : String → Bool
  unfolding is_stripped is_internal has_control
  valid_subject s =
      leb 1 (text_length s)
      && (leb (text_length s) 255
          && (is_stripped s && (not (is_internal s) && not (has_control s))))

  -- `clean_display_text`, after the bound of the field; nothing is a refusal
  unfoldable pub clean_display_text : Option String → Option (Option String)
  unfolding collapse has_control
  clean_display_text none = some none
  clean_display_text (some s) =
      let clean = collapse false false s in
      if not (leb (text_length s) 200)
      then none
      else if str_eq clean "" || has_control clean
      then none
      else some (some clean)

  unfoldable pub valid_role : String → Bool
  unfolding is_stripped has_control
  valid_role s =
      not (str_eq s "") && (is_stripped s && (leb (text_length s) 128 && not (has_control s)))

  -- `validate_roles`
  unfoldable pub valid_roles : List String → Bool
  unfolding valid_role
  valid_roles roles = leb (length roles) 64 && (is_unique roles && all valid_role roles)

  abbrev cleaned : Principal → Option (Option String) → Option (Option String) → Option Principal
  cleaned p (some name) (some organization) =
      some (record p { display_name = name; organization = organization })
  cleaned p _ _ = none

  -- `Principal.model_validate`
  unfoldable pub validate_principal : Principal → Option Principal
  unfolding valid_subject clean_display_text valid_roles
  validate_principal p =
      if valid_subject p.subject && (valid_roles p.roles && within 255 p.session_id)
      then cleaned p (clean_display_text p.display_name) (clean_display_text p.organization)
      else none

-- The part of the validator of the settings that is about identity.
unfoldable pub valid_identity_mode : AppEnv → IdentityProviderMode → Bool
valid_identity_mode production external = true
valid_identity_mode production _ = false
valid_identity_mode _ _ = true

abbrev pub anonymous_development_subject : String
anonymous_development_subject = "urn:work-assistant:principal:anonymous-development"

abbrev pub named : String → String → Principal
named subject name = record {
  subject = subject;
  display_name = some name;
  organization = none;
  roles = [];
  session_id = none;
}

module _ (Request : Type 0) where
  pub data IdentityProvider : Type 0 where
    anonymous_provider development_header_provider : IdentityProvider
    external_provider : (Request → Option Principal) → IdentityProvider

  abbrev pub is_development : IdentityProvider → Bool
  is_development anonymous_provider = true
  is_development development_header_provider = true
  is_development (external_provider _) = false

  abbrev of_external :
      AppEnv → Option IdentityProvider → Result IdentityConfigurationError IdentityProvider
  of_external env none = err external_identity_provider_missing
  of_external env (some p) = ok p

  abbrev of_local :
      IdentityProvider
      → Option IdentityProvider
      → Result IdentityConfigurationError IdentityProvider
  of_local p none = ok p
  of_local p (some _) = err external_identity_provider_unexpected

  abbrev of_mode :
      AppEnv
      → IdentityProviderMode
      → Option IdentityProvider
      → Result IdentityConfigurationError IdentityProvider
  of_mode env external given = of_external env given
  of_mode env anonymous given = of_local anonymous_provider given
  of_mode env development_header given = of_local development_header_provider given

  -- `settings.app_env == "production" and isinstance(external_provider, (...))`
  abbrev is_unsafe : AppEnv → Option IdentityProvider → Bool
  is_unsafe production (some p) = is_development p
  is_unsafe _ _ = false

  unfoldable pub resolve_identity_provider :
      AppEnv
      → IdentityProviderMode
      → Option IdentityProvider
      → Result IdentityConfigurationError IdentityProvider
  resolve_identity_provider env mode given =
      if is_unsafe env given
      then err development_identity_provider_in_production
      else of_mode env mode given

  module _ (is_control : ℕ → Bool) (getlist : Request → List String) where
    abbrev one_header : List String → Option Principal
    one_header (value ∷ []) = validate_principal is_control (named value value)
    one_header _ = none

    -- `authenticate`, of each provider
    unfoldable pub authenticate : IdentityProvider → Request → Option Principal
    unfolding validate_principal
    authenticate anonymous_provider request =
        validate_principal is_control (named anonymous_development_subject "当前用户")
    authenticate development_header_provider request = one_header (getlist request)
    authenticate (external_provider f) request = f request

    abbrev rebuilt : Option Principal → Option Principal
    rebuilt none = none
    rebuilt (some p) = validate_principal is_control p

    -- The assertion of the provider, built anew.
    unfoldable pub authenticate_request : IdentityProvider → Request → Option Principal
    unfolding authenticate validate_principal
    authenticate_request provider request = rebuilt (authenticate provider request)

-- ===== src/Identity/Tests.antt =====
-- The theorems about identities at a request that is a list of headers.
use work_assistant_agent.Prelude.{
  ℕ, ◌≡◌, ◌≤◌, refl, Bool, true, false, String, Option, none, some, List, [], ◌∷◌, ok, ltb,
}
use work_assistant_agent.Prelude.Names.{text_length}
use work_assistant_agent.Capabilities.Decision.{Principal}
use work_assistant_agent.Repository.Records.{of_thread}
use work_assistant_agent.Repository.Access.{require_owner}
use work_assistant_agent.Identity.{
  IdentityProvider, production, external, named, is_development, external_provider,
  development_header_provider, valid_identity_mode, resolve_identity_provider, authenticate_request,
}
use work_assistant_agent.Identity.Trusted.{
  authenticate_request_owner, resolve_identity_provider_safe,
}

abbrev is_control : ℕ → Bool
is_control c = ltb c 32

abbrev headers : List String → List String
headers request = request

abbrev signed_in : Option Principal
signed_in =
    authenticate_request (List String) is_control headers development_header_provider
      ("alice  smith" ∷ [])

signed_in_is : signed_in ≡ some (named "alice  smith" "alice smith")
unfolding authenticate_request
signed_in_is = refl

internal_is_refused :
    authenticate_request
      (List String)
      is_control
      headers
      (external_provider (λ request. some (named "urn:work-assistant:internal:x" "x")))
      []
    ≡ none
unfolding authenticate_request
internal_is_refused = refl

authenticate_request_owner_example :
    (1 ≤ text_length "alice  smith")
    × (text_length "alice  smith" ≤ 255)
    × (require_owner (named "alice  smith" "alice smith") "alice  smith" of_thread ≡ ok tt)
authenticate_request_owner_example =
    authenticate_request_owner (List String) is_control headers development_header_provider
      ("alice  smith" ∷ []) (named "alice  smith" "alice smith") of_thread signed_in_is

abbrev by_header : IdentityProvider (List String)
by_header = external_provider (λ request. none)

external_is_valid : valid_identity_mode production external ≡ true
unfolding valid_identity_mode
external_is_valid = refl

resolved :
    resolve_identity_provider (List String) production external (some by_header) ≡ ok by_header
unfolding resolve_identity_provider
resolved = refl

resolve_identity_provider_safe_example : is_development (List String) by_header ≡ false
resolve_identity_provider_safe_example =
    resolve_identity_provider_safe (List String) external (some by_header) by_header
      external_is_valid resolved

-- ===== src/Identity/Trusted.antt =====
-- What the Host may rely on in an identity that it accepted, and in the provider that it resolved.
use work_assistant_agent.Prelude.{
  ℕ, ◌≡◌, ◌≤◌, Bool, true, false, String, Option, some, List, ok, arith, eq_iff, inl, inr,
  Option-cases,
}
use work_assistant_agent.Prelude.Names.{text_length}
use work_assistant_agent.Capabilities.Decision.{Principal}
use work_assistant_agent.Repository.Records.{ResourceKind}
use work_assistant_agent.Repository.Access.{require_owner}
use work_assistant_agent.Identity.{
  production, IdentityProviderMode, IdentityProvider, is_development, valid_identity_mode,
  resolve_identity_provider, valid_subject, validate_principal, authenticate, authenticate_request,
}

validate_principal-subject :
    (is_control : ℕ → Bool) (p q : Principal)
    → validate_principal is_control p ≡ some q
    → valid_subject is_control q.subject ≡ true
unfolding validate_principal
validate_principal-subject is_control p q h = ground (arith, h)

valid_subject_owner :
    (is_control : ℕ → Bool) (p : Principal) (kind : ResourceKind)
    → valid_subject is_control p.subject ≡ true
    → (1 ≤ text_length p.subject)
      × (text_length p.subject ≤ 255)
      × (require_owner p p.subject kind ≡ ok tt)
unfolding valid_subject require_owner
valid_subject_owner is_control p kind h =
    (ground (arith, h), ground (arith, h), ground (arith, h, eq_iff p.subject p.subject))

-- Whatever a provider answers for a request, the Principal that the Host takes from it has a subject of one
-- to 255 characters, and is let through by the check of ownership to whatever it owns: no
-- provider can assert an internal subject.
pub authenticate_request_owner :
    (Request : Type 0) (is_control : ℕ → Bool) (getlist : Request → List String)
    (provider : IdentityProvider Request) (request : Request) (p : Principal) (kind : ResourceKind)
    → authenticate_request Request is_control getlist provider request ≡ some p
    → (1 ≤ text_length p.subject)
      × (text_length p.subject ≤ 255)
      × (require_owner p p.subject kind ≡ ok tt)
unfolding authenticate_request
authenticate_request_owner Request is_control getlist provider request p kind h =
    elim (Option-cases (authenticate Request is_control getlist provider request)) [
      | inl silent ↦ absurd (ground (arith, h, silent))
      | inr (q, asserted) ↦
          valid_subject_owner is_control p kind
            (validate_principal-subject is_control q p (ground (arith, h, asserted)))
    ]

-- With settings that their validator accepts, no provider for development is resolved in production,
-- whichever provider the deployment passes in.
pub resolve_identity_provider_safe :
    (Request : Type 0) (mode : IdentityProviderMode) (given : Option (IdentityProvider Request))
    (p : IdentityProvider Request)
    → valid_identity_mode production mode ≡ true
    → resolve_identity_provider Request production mode given ≡ ok p
    → is_development Request p ≡ false
unfolding valid_identity_mode resolve_identity_provider
resolve_identity_provider_safe Request mode given p valid h = ground (arith, valid, h)

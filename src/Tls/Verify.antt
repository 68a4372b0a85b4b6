-- ===== src/Tls/Verify.antt =====
-- `verifyConnection`: x509 verification is a parameter.
use cloudzero_agent.Base.{
  ℕ, ◌≤◌, Bool, true, false, Option, none, some, List, [], ◌∷◌, ltb, leb, ◌&&◌, if◌then◌else◌, ◌≡◌,
  ◌≢◌, ◌↔◌, refl, arith,
}
use cloudzero_agent.Tls.Defs.{Reconciler, Provided, certificates}

-- What a verification comes to; `waiting` is a wait for the end of a reload.
pub data Verification {ℓ} (E : Type ℓ) : Type ℓ where
  accepted waiting panicked : Verification E
  rejected : E → Verification E

-- The type of client authentication from which a client's certificate is verified.
abbrev pub verify_client_cert_if_given : ℕ
verify_client_cert_if_given = 3

abbrev pub has_none {ℓ} : {P : Type ℓ} → List P → Bool
has_none [] = true
has_none (p ∷ peers) = false

module _ {ι} {E : Type ι} where
  abbrev pub of_error : Option E → Verification E
  of_error none = accepted
  of_error (some e) = rejected e

  of_error_ne : (o : Option E) → of_error o ≢ panicked
  of_error_ne none e = ground arith
  of_error_ne (some x) e = ground arith

-- The pool, the intermediate certificates, the first one, and whether it is that of a client.
abbrev pub Verify {κ π ι} : Type κ → Type π → Type ι → Type (κ ⊔ π ⊔ ι)
Verify R P E = Option (List R) → List P → P → Bool → Option E

-- The first certificate of the peer is verified, with the others between it and a root; without any,
-- `PeerCertificates[1:]` panics.
abbrev pub verify_peers {κ π ι} :
    {R : Type κ} {P : Type π} {E : Type ι}
    → Verify R P E
    → ℕ
    → Option (List R)
    → List P
    → Verification E
verify_peers verify client_auth pool [] = panicked
verify_peers verify client_auth pool (leaf ∷ intermediates) =
    of_error (verify pool intermediates leaf (leb verify_client_cert_if_given client_auth))

module _ {ℓ κ π ι} {C : Type ℓ} {R : Type κ} {P : Type π} {E : Type ι} (verify : Verify R P E) where
  abbrev pub verify_from : ℕ → List P → Option (Option E × Reconciler C R) → Verification E
  verify_from client_auth peers none = waiting
  verify_from client_auth peers (some (some e, r)) = rejected e
  verify_from client_auth peers (some (none, r)) =
      if ltb client_auth verify_client_cert_if_given && has_none peers
      then accepted
      else verify_peers verify client_auth r.pool peers

  unfoldable pub verify_connection :
      ℕ → List P → Bool → ℕ → Provided C R E → Reconciler C R → Verification E
  verify_connection client_auth peers wants now provided r =
      verify_from client_auth peers (certificates wants now provided r)

  verify_from_panics :
      (client_auth : ℕ) (peers : List P) (r : Reconciler C R)
      → (verify_from client_auth peers (some (none, r)) ≡ panicked)
        ↔ ((peers ≡ []) × (verify_client_cert_if_given ≤ client_auth))
  verify_from_panics client_auth [] r =
      (λ e. (refl, ground arith), λ h. let (_, le) = h in ground arith)
  verify_from_panics client_auth (leaf ∷ peers) r = (
    λ e. absurd (
        ground (
          arith,
          e,
          of_error_ne (verify r.pool peers leaf (leb verify_client_cert_if_given client_auth)),
        )),
    λ h. absurd (ground (arith, h.0)),
  )

  -- Once the certificates are there, the verification of a connection panics exactly when the peer has
  -- sent no certificate and the certificates of clients are verified.
  pub verify_connection_panics :
      (client_auth : ℕ) (peers : List P) (wants : Bool) (now : ℕ) (provided : Provided C R E)
      (r r' : Reconciler C R)
      → certificates wants now provided r ≡ some (none, r')
      → (verify_connection client_auth peers wants now provided r ≡ panicked)
        ↔ ((peers ≡ []) × (verify_client_cert_if_given ≤ client_auth))
  unfolding verify_connection
  verify_connection_panics client_auth peers wants now provided r r' e =
      rw e (verify_from_panics client_auth peers r')

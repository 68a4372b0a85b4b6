-- ===== src/Tls/Files.antt =====
-- `fileSystemProvider` and `noopProvider`. Reading files and parsing certificates are parameters.
use cloudzero_agent.Base.{
  String, none, some, List, [], ◌∷◌, ◌>>=◌, ok, err, Result, ◌==◌, if◌then◌else◌,
}
use cloudzero_agent.Tls.Defs.{Provided}

-- What the packages os, crypto/tls, encoding/pem and crypto/x509 do: `pem_blocks` are the blocks that
-- `pem.Decode` gives one after the other.
pub record Files {ℓ κ ι} (C : Type ℓ) (R : Type κ) (E : Type ι) : Type (ℓ ⊔ κ ⊔ ι) where
  pub load_key_pair : String → String → Result E C
  pub read_file : String → Result E String
  pub pem_blocks : String → List String
  pub parse_certificate : String → Result E R
  pub path_missing : E

module _ {ℓ κ ι} {C : Type ℓ} {R : Type κ} {E : Type ι} where
  abbrev pub noop_certificates : Provided C R E
  noop_certificates = ok (none, [])

  -- The loop over the blocks: the first error is returned.
  unfoldable pub parse_roots : Files C R E → List String → Result E (List R)
  parse_roots files [] = ok []
  parse_roots files (block ∷ blocks) =
      files.parse_certificate block
      >>= (λ root. parse_roots files blocks >>= (λ roots. ok (root ∷ roots)))

  -- The paths are those of the bundle, the certificate and the key.
  unfoldable pub file_certificates : Files C R E → List String → Provided C R E
  unfolding parse_roots
  file_certificates files (ca_file ∷ cert_file ∷ key_file ∷ []) =
      files.load_key_pair cert_file key_file >>= (λ cert.
        if ca_file == ""
        then ok (some cert, [])
        else files.read_file ca_file >>= (λ bundle.
          parse_roots files (files.pem_blocks bundle) >>= (λ roots. ok (some cert, roots))))
  file_certificates files paths = err files.path_missing

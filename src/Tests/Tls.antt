-- ===== src/Tests/Tls.antt =====
-- A reconciler for two roots, with numbers for certificates, roots and errors.
use cloudzero_agent.Base.{
  ℕ, Bool, true, false, none, some, List, [], ◌∷◌, ok, err, steps, ◌≡◌, refl,
}
use cloudzero_agent.Tls.Defs.{
  Setting, Reload, Reconciler, ask_reload, push_roots, new_reconciler, apply, apply_all, tls_config,
  need_reload, certificates, with_provider, with_reload_func, with_on_reload,
  with_verify_connection,
}
use cloudzero_agent.Tls.Laws.{
  Call, IsCurrent, call_step, source_of, next_source, history, no_history, tls_config-IsCurrent,
}
use cloudzero_agent.Tls.Stuck.{certificates_after_error}
use cloudzero_agent.Tls.Verify.{Verify, verify_connection}
use cloudzero_agent.Tls.Files.{Files, file_certificates, parse_roots}

program : Unit {0}
unfolding ask_reload push_roots apply apply_all tls_config need_reload certificates call_step
    next_source history steps verify_connection file_certificates parse_roots
program = tt

abbrev settings : List Setting
settings = with_verify_connection ∷ with_provider ∷ with_reload_func ∷ with_on_reload ∷ []

abbrev configured : Reconciler ℕ ℕ
configured = record new_reconciler {
  reload = Reload.on_demand;
  has_on_reload = true;
  verifies_connection = true;
  gets_certificate = true;
}

abbrev call : Bool → ℕ → List ℕ → Call ℕ ℕ ℕ
call wants cert roots = record { wants = wants; now = 0; provided = ok (some cert, roots) }

-- The second call does not load.
abbrev calls : List (Call ℕ ℕ ℕ)
calls = call false 1 (11 ∷ []) ∷ call false 2 (22 ∷ []) ∷ call true 3 (33 ∷ 34 ∷ []) ∷ []

abbrev after_calls : Reconciler ℕ ℕ
after_calls = record configured {
  started = true;
  roots = 34 ∷ 33 ∷ [];
  pool = some (34 ∷ 33 ∷ []);
  cert = some 3;
  reloads = 2;
}

reloaded : steps call_step calls configured ≡ some after_calls
unfolding program
reloaded = refl

tls_config-IsCurrent_example :
    (r : Reconciler ℕ ℕ) × (steps call_step calls configured ≡ some r)
    × (r.reloading ≡ false)
    × IsCurrent 2 (history calls (source_of configured) no_history) r
unfolding program
tls_config-IsCurrent_example = tls_config-IsCurrent settings calls configured refl refl

certificates_after_error_example :
    (r : Reconciler ℕ ℕ) × (certificates {E = ℕ} true 0 (err 7) after_calls ≡ some (some 7, r))
    × (r.cert ≡ some 3)
    × (r.pool ≡ some (34 ∷ 33 ∷ []))
    × (certificates {E = ℕ} false 0 (ok (some 4, [])) r ≡ none)
unfolding program
certificates_after_error_example =
    certificates_after_error true false 0 0 7 (ok (some 4, [])) after_calls refl refl

abbrev verify : Verify ℕ ℕ ℕ
verify pool intermediates leaf is_client = none

abbrev files : Files ℕ ℕ ℕ
files = record {
  load_key_pair = λ cert key. ok 5;
  read_file = λ name. ok name;
  pem_blocks = λ bundle. bundle ∷ bundle ∷ [];
  parse_certificate = λ block. ok 6;
  path_missing = 8;
}

files_read : file_certificates files ("ca" ∷ "cert" ∷ "key" ∷ []) ≡ ok (some 5, 6 ∷ 6 ∷ [])
unfolding program
files_read = refl

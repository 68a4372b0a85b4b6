-- ===== src/Diagnostics/Catalog.antt =====
-- app/domain/diagnostic/catalog/catalog.go and stage/stage.go: the providers of checks by name. A
-- provider is what it writes to the report and whether it returns an error.
use cloudzero_agent.Base.{
  String, Bool, true, false, Option, none, some, List, [], ◌∷◌, ◌++◌, lookup, is_some,
  if◌then◌else◌,
}

pub data StatusType : Type 0 where
  unspecified init_started init_ok init_failed pod_started pod_stopping : StatusType

pub record StatusCheck : Type 0 where
  pub name : String
  pub passing : Bool
  pub error : String

-- One change of the report, under its lock.
pub data Write : Type 0 where
  add_check : StatusCheck → Write
  set_state : StatusType → Write

pub record Provider : Type 0 where
  pub writes : List Write
  pub error : Option String

-- `stage.NewProvider`
abbrev pub stage_provider : StatusType → Provider
stage_provider t = record { writes = set_state t ∷ []; error = none }

pub record ProviderInfo : Type 0 where
  pub is_private : Bool
  pub handler : Provider

abbrev pub Registry : Type 0
Registry = List (String × ProviderInfo)

unfoldable pub has : String → Registry → Bool
unfolding lookup
has id r = is_some (lookup id r)

-- `add`; it panics, which is `none`, on a name that is there already.
unfoldable pub add : String → Bool → Provider → Registry → Option Registry
unfolding has
add name private provider r =
    if has name r
    then none
    else some (r ++ (name, record { is_private = private; handler = provider }) ∷ [])

abbrev handlers_of : Option ProviderInfo → List Provider → List Provider
handlers_of none rest = rest
handlers_of (some p) rest = p.handler ∷ rest

-- `Get`: the names that are not there are passed over.
unfoldable pub get : List String → Registry → List Provider
unfolding lookup
get [] r = []
get (id ∷ ids) r = handlers_of (lookup id r) (get ids r)

-- `List`: the names of the providers that are not private.
unfoldable pub list : Registry → List String
list [] = []
list ((id, p) ∷ r) = let rest = list r in if p.is_private then rest else id ∷ rest

-- One call of `add` in `createRegistry`.
abbrev pub Addition : Type 0
Addition = String × Bool × Provider

abbrev then_add : Addition → Option Registry → Option Registry
then_add (name, private, provider) none = none
then_add (name, private, provider) (some r) = add name private provider r

unfoldable pub add_all : List Addition → Option Registry → Option Registry
unfolding add
add_all [] r = r
add_all (a ∷ additions) r = add_all additions (then_add a r)

-- The providers that ask other services.
pub record Checks : Type 0 where
  pub api_key : Provider
  pub k8s_version : Provider
  pub k8s_namespace : Provider
  pub k8s_provider : Provider
  pub kms : Provider
  pub scrape_config : Provider
  pub prometheus_version : Provider
  pub insights_ingress : Provider
  pub istio : Provider

unfoldable pub additions : Checks → List Addition
additions c =
    ("api_key_valid", false, c.api_key)
    ∷ ("k8s_version", false, c.k8s_version)
    ∷ ("k8s_namespace", false, c.k8s_namespace)
    ∷ ("k8s_provider", false, c.k8s_provider)
    ∷ ("kube_state_metrics_reachable", false, c.kms)
    ∷ ("scrape_cfg", false, c.scrape_config)
    ∷ ("prometheus_version", false, c.prometheus_version)
    ∷ ("webhook_server_reachable", false, c.insights_ingress)
    ∷ ("istio_xcluster_lb", false, c.istio)
    ∷ ("init_start", true, stage_provider init_started)
    ∷ ("init_ok", true, stage_provider init_ok)
    ∷ ("init_failed", true, stage_provider init_failed)
    ∷ ("pod_start", true, stage_provider pod_started)
    ∷ ("pod_stop", true, stage_provider pod_stopping)
    ∷ []

-- `createRegistry`
unfoldable pub create_registry : Checks → Option Registry
unfolding add_all additions
create_registry c = add_all (additions c) (some [])

-- ===== src/Webhook/Controller.antt =====
-- The controller of app/domain/webhook/webhook.go: the table of handlers by group, version and kind,
-- which is a map of maps of maps, and the review through it. `strings.ToLower` is a parameter.
use cloudzero_agent.Base.{
  String, Bool, false, Option, none, some, List, [], ◌∷◌, lookup, insert, is_some, if◌then◌else◌,
}
use cloudzero_agent.Pusher.Record.{ResourceTags}
use cloudzero_agent.Webhook.Format.{Accessor}
use cloudzero_agent.Webhook.Repository.{Write}
use cloudzero_agent.Webhook.Review.{AdmissionReview}
use cloudzero_agent.Webhook.Hook.{
  Decoders, Handler, Outcome, execute, allow_always, new_dynamic_object,
}
use cloudzero_agent.Webhook.Settings.{Settings}
use cloudzero_agent.Webhook.Handlers.{Registration, registrations}

abbrev pub Dispatch : Type 0
Dispatch = List (String × List (String × List (String × Handler)))

-- A map that is not there yet is made; reading one gives nothing.
abbrev pub made {ℓ} : {V : Type ℓ} → Option (List (String × V)) → List (String × V)
made none = []
made (some entries) = entries

unfoldable pub register : String → String → String → Handler → Dispatch → Dispatch
unfolding lookup insert
register group version resource h table =
    let versions = made (lookup group table) in
    let resources = made (lookup version versions) in
    insert group (insert version (insert resource h resources) versions) table

-- `wc.dispatch[g][v][k]`
unfoldable pub find_handler : String → String → String → Dispatch → Option Handler
unfolding lookup
find_handler g v k table = lookup k (made (lookup v (made (lookup g table))))

unfoldable pub registered : String → String → String → Dispatch → Bool
unfolding lookup
registered g v k table = elim (lookup g table) [
  | none ↦ false
  | some versions ↦ elim (lookup v versions) [
    | none ↦ false
    | some resources ↦ is_some (lookup k resources)
  ]
]

abbrev accessor_of : Option Handler → Option Accessor
accessor_of none = none
accessor_of (some h) = h.accessor

-- `GetConfigurationAccessor`; `none` is nil.
unfoldable pub get_configuration_accessor : String → String → String → Dispatch → Option Accessor
unfolding registered find_handler
get_configuration_accessor g v k table =
    if registered g v k table then accessor_of (find_handler g v k table) else none

unfoldable pub register_all : List Registration → Dispatch → Dispatch
unfolding register
register_all [] table = table
register_all (r ∷ rs) table = register_all rs (register r.group r.version r.kind r.handler table)

-- `webhookController`
pub record WebhookController : Type 0 where
  pub default_handler : Handler
  pub dispatch : Dispatch

-- The handler of what is not registered.
unfoldable pub default_handler : Decoders → Handler
unfolding allow_always new_dynamic_object
default_handler d = record {
  accessor = none;
  object_creator = some (new_dynamic_object d);
  on_create = some allow_always;
  on_update = some allow_always;
  on_delete = some allow_always;
  on_connect = some allow_always;
}

-- `NewWebhookFactory`
unfoldable pub new_webhook_factory : Decoders → Settings → WebhookController
unfolding register_all registrations default_handler
new_webhook_factory d s = record {
  default_handler = default_handler d;
  dispatch = register_all (registrations d s) [];
}

-- The processor that `Review` takes; a handler that is registered is there.
unfoldable pub processor : WebhookController → String → String → String → Handler
unfolding registered find_handler
processor wc g v k =
    if registered g v k wc.dispatch
    then elim (find_handler g v k wc.dispatch) [ none ↦ wc.default_handler | some h ↦ h ]
    else wc.default_handler

-- `Review`
unfoldable pub review :
    (String → String) → WebhookController → Write → AdmissionReview → List ResourceTags → Outcome
unfolding processor execute
review to_lower wc w ar rows =
    execute
      (processor wc ar.request_gvk.group ar.request_gvk.version (to_lower ar.request_gvk.kind)) w ar
      rows

-- ===== src/Webhook/Admission.antt =====
-- The table of handlers as a flat map, and what the handlers answer.
use cloudzero_agent.Base.{
  String, some, List, lookup, insert, lookup-insert, is_some, ◌&&◌, ◌==◌, eq_iff, if◌then◌else◌,
  ◌≡◌, arith,
}
use cloudzero_agent.Webhook.Hook.{Handler}
use cloudzero_agent.Webhook.Controller.{Dispatch, made, register, find_handler, registered}

find_handler-insert :
    (g g' v k : String) (versions : List (String × List (String × Handler))) (table : Dispatch)
    → find_handler g' v k (insert g versions table)
      ≡ (if g == g' then lookup k (made (lookup v versions)) else find_handler g' v k table)
unfolding find_handler
find_handler-insert g g' v k versions table = rw (lookup-insert g g' versions table) (ground arith)

made-insert :
    (v v' k : String) (rs : List (String × Handler))
    (versions : List (String × List (String × Handler)))
    → lookup k (made (lookup v' (insert v rs versions)))
      ≡ (if v == v' then lookup k rs else lookup k (made (lookup v' versions)))
made-insert v v' k rs versions = rw (lookup-insert v v' rs versions) (ground arith)

-- Registering a handler in the map of maps of maps changes the handler of its own group, version and
-- kind, and no other.
pub find_handler-register :
    (g v k : String) (h : Handler) (table : Dispatch) (g' v' k' : String)
    → find_handler g' v' k' (register g v k h table)
      ≡ (if g == g' && v == v' && k == k' then some h else find_handler g' v' k' table)
unfolding register find_handler
find_handler-register g v k h table g' v' k' = ground (
  arith,
  eq_iff g g',
  eq_iff v v',
  find_handler-insert g g' v' k'
      (insert v (insert k h (made (lookup v (made (lookup g table))))) (made (lookup g table)))
      table,
  made-insert v v' k' (insert k h (made (lookup v (made (lookup g table)))))
      (made (lookup g table)),
  lookup-insert k k' h (made (lookup v (made (lookup g table)))),
)

-- `registered` tells whether there is a handler.
pub registered-find_handler :
    (g v k : String) (table : Dispatch)
    → registered g v k table ≡ is_some (find_handler g v k table)
unfolding registered find_handler lookup
registered-find_handler g v k table = ground arith

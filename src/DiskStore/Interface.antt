-- ===== src/DiskStore/Interface.antt =====
-- The disk store as one of the stores of the collector.
use cloudzero_agent.Base.{◌∙◌}
use mathlib.Core.List.{append-nil}
use cloudzero_agent.Collector.Put.{Store}
use cloudzero_agent.Collector.Put.Rows.{KeepsRows}
use cloudzero_agent.DiskStore.Defs.{
  Env, StoreError, DiskStore, put_call, flush_call, call, put, flush,
}
use cloudzero_agent.DiskStore.Rows.{IsSpaced, IsReady, contents, call-IsReady}

module _ (env : Env) where
  abbrev pub disk_store : Store DiskStore StoreError
  disk_store = record { put = put env; flush = flush env }

  -- The disk store keeps the contract that the collector's theorems ask of a store, if the clock does
  -- not go back and a millisecond passes between the start and the stop of each file: `Put` without an error appends to the rows in its files, and `Flush` without
  -- an error keeps them.
  pub disk_store-KeepsRows : IsSpaced env → KeepsRows disk_store (contents env) (IsReady env)
  unfolding call
  disk_store-KeepsRows spaced = record {
    put_appends = λ s ms r e. call-IsReady env spaced s (put_call ms) r e;
    flush_keeps = λ s r e.
        let (ready, same) = call-IsReady env spaced s flush_call r e in
        (ready, same ∙ append-nil (contents env s));
  }

-- ===== src/Proxy/Refusal.antt =====
-- What cpp/arcae/isolated_table_proxy.h does behind Close.
use casa_arrow.Base.{◌≡◌, refl, true, ◌>>=◌, err, invalid, ok, map_result}
use casa_arrow.Proxy.{IsolatedTableProxy, Outcome, close, run_async, run_sync}
use casa_arrow.Proxy.Closing.{closed_behind, refused, run_async-refused, run_sync-refused}
use casa_arrow.Proxy.Dependents.{then_instance, unguarded, spawn}
use casa_arrow.Proxy.Spawning.{drained, open_in_pools, spawn-drained}

module _ {T : Type 0} where
  then_instance-refused :
      (itp : IsolatedTableProxy T) → itp.is_closed ≡ true → then_instance itp ≡ err invalid
  unfolding then_instance
  then_instance-refused itp closed = rw (refused itp closed) refl

  -- Behind Close, of an open or a closed proxy, RunAsync, RunSync and Then refuse their functors.
  -- Spawn does not: it runs its functor on the tables that Close leaves.
  pub run-close {ℓ} :
      {A : Type ℓ} {N : Type 0} (close_table : T → T) (itp : IsolatedTableProxy T)
      (functor : T → T × Outcome A) (this : N) (spawning : T → Outcome T)
      → (run_async (close close_table itp).0 functor ≡ err invalid)
        × (run_sync (close close_table itp).0 functor ≡ err invalid)
        × (then_instance (close close_table itp).0 ≡ err invalid)
        × ((spawn this spawning (close close_table itp).0).1 ≡ (
            map_result (λ t. unguarded (spawning t)) (drained (close close_table itp).0.proxy_pools)
            >>= λ ts. ok (open_in_pools this ts)))
  run-close close_table itp functor this spawning =
      let closed = closed_behind close_table itp in
      let behind = (close close_table itp).0 in
      (
        run_async-refused behind closed functor,
        run_sync-refused behind closed functor,
        then_instance-refused behind closed,
        (spawn-drained this spawning behind).0,
      )

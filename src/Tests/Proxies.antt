-- ===== src/Tests/Proxies.antt =====
-- Runs of cpp/arcae/isolated_table_proxy.cc, with a number for a table.
use casa_arrow.Base.{
  ℕ, ◌+◌, ◌≡◌, refl, inl, true, false, some, [], ◌∷◌, get_elem?, arith, Result, ok, err, invalid,
  ltb, if◌then◌else◌, map_result, ◌>>=◌,
}
use casa_arrow.Proxy.{
  ProxyAndPool, IsolatedTableProxy, Outcome, returned, thrown, get_instance, get_num_tasks, close,
  run_async, run_sync, make,
}
use casa_arrow.Proxy.Instances.{NoneFewer, get_instance-NoneFewer}
use casa_arrow.Proxy.Closing.{AllClosed, close-close, MakeOutcome, make-MakeOutcome}
use casa_arrow.Proxy.Dependents.{then_instance, unguarded, spawn}
use casa_arrow.Proxy.Refusal.{run-close}
use casa_arrow.Proxy.Spawning.{drained, open_in_pools, spawn-drained}

abbrev two_pools : IsolatedTableProxy ℕ
two_pools = record {
  proxy_pools =
      record { table_proxy = 1; tasks = (λ t. t + 1) ∷ [] }
      ∷ record { table_proxy = 2; tasks = [] }
      ∷ [];
  is_closed = false;
}

get_instance-NoneFewer_example :
    (p : ProxyAndPool ℕ) × (get_elem? two_pools.proxy_pools (get_instance two_pools) ≡ some p)
    × NoneFewer (get_num_tasks p) two_pools.proxy_pools
get_instance-NoneFewer_example = get_instance-NoneFewer two_pools (inl (omega arith))

abbrev to_hundred : ℕ → ℕ
to_hundred t = t + 100

close-close_example :
    ((close to_hundred two_pools).1 ≡ ok true)
    × ((close to_hundred two_pools).0.is_closed ≡ true)
    × AllClosed to_hundred two_pools.proxy_pools (close to_hundred two_pools).0.proxy_pools
    × (close to_hundred (close to_hundred two_pools).0 ≡ ((close to_hundred two_pools).0, ok false))
close-close_example = close-close to_hundred two_pools refl

abbrev read_table : ℕ → ℕ × Outcome ℕ
read_table t = (t, returned (ok t))

abbrev parent_name : ℕ
parent_name = 7

abbrev returned_small : ℕ → Outcome ℕ
returned_small n = returned (ok (n + 1))

run-close_example :
    (run_async (close to_hundred two_pools).0 read_table ≡ err invalid)
    × (run_sync (close to_hundred two_pools).0 read_table ≡ err invalid)
    × (then_instance (close to_hundred two_pools).0 ≡ err invalid)
    × ((spawn parent_name returned_small (close to_hundred two_pools).0).1 ≡ (
        map_result
          (λ t. unguarded (returned_small t))
          (drained (close to_hundred two_pools).0.proxy_pools)
        >>= λ ts. ok (open_in_pools parent_name ts)))
run-close_example = run-close to_hundred two_pools read_table parent_name returned_small

-- The third instance cannot be opened.
abbrev open_two : ℕ → Result ℕ
open_two n = if ltb n 2 then ok n else err invalid

make-MakeOutcome_example : MakeOutcome open_two 3 (make open_two 3)
make-MakeOutcome_example = make-MakeOutcome open_two 3 (omega arith)

-- A functor of Spawn, which throws for a great number.
abbrev spawn_small : ℕ → Outcome ℕ
spawn_small n = if ltb n 50 then returned (ok (n + 1)) else thrown

spawn-drained_example :
    ((spawn parent_name spawn_small two_pools).1 ≡ (
      map_result (λ t. unguarded (spawn_small t)) (drained two_pools.proxy_pools) >>= λ ts.
      ok (open_in_pools parent_name ts)))
    × (drained (spawn parent_name spawn_small two_pools).0.proxy_pools
        ≡ drained two_pools.proxy_pools)
    × ((spawn parent_name spawn_small two_pools).0.is_closed ≡ two_pools.is_closed)
spawn-drained_example = spawn-drained parent_name spawn_small two_pools

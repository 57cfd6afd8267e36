-- ===== src/Proxy/Dependents.antt =====
-- Then and Spawn of cpp/arcae/isolated_table_proxy.h. Then chooses its instance when it is called, and
-- submits its functor when the future that it waits for has a value. Spawn runs a functor in every
-- pool and waits for it; the tables of the new proxy stay in the pools of their parent, of which
-- the new proxy keeps a reference.
use casa_arrow.Base.{ℕ, ◌+◌, List, [], ◌∷◌, Result, ok, err, Bool, false, fault, ◌>>=◌, ◌>>◌}
use casa_arrow.Proxy.{
  ProxyAndPool, IsolatedTableProxy, Outcome, returned, thrown, get_instance, check_closed, submit,
  finish, at_pool,
}

-- The proxy of Spawn: its tables, each with the number of the pool of its parent, and the proxies
-- that it keeps, by their names.
pub record SpawnedProxy (T N : Type 0) : Type 0 where
  pub proxy_pools : List (T × ℕ)
  pub is_closed : Bool
  pub dependencies : List N

module _ {T : Type 0} where
  -- Then, when it is called: the instance in which the functor will run.
  unfoldable pub then_instance : IsolatedTableProxy T → Result ℕ
  unfolding check_closed get_instance
  then_instance itp = check_closed itp >> ok (get_instance itp)

  -- Then, when the future has an outcome: a value goes to the functor, an error past it.
  unfoldable pub then_continue {ℓ κ} :
      {R : Type ℓ} {A : Type κ}
      → ℕ
      → Result R
      → (R → T → T × Outcome A)
      → IsolatedTableProxy T
      → IsolatedTableProxy T
  unfolding at_pool submit
  then_continue n (err c) functor itp = itp
  then_continue n (ok value) functor itp = record itp {
    proxy_pools = at_pool n (submit (λ t. (functor value t).0)) (itp.proxy_pools);
  }

  -- The functor of Spawn runs without a handler: what it throws ends the process.
  unfoldable pub unguarded : Outcome T → Result T
  unguarded (returned r) = r
  unguarded thrown = err fault

  -- Submit of a functor that only reads its table, and the wait for its future.
  unfoldable pub read_in_pool : ProxyAndPool T → ProxyAndPool T
  unfolding submit finish
  read_in_pool p = finish (submit (λ t. t) p)

  -- A step of the loop of Spawn, for pool i: the pools behind it, and the new tables.
  unfoldable pub spawn_next :
      ℕ
      → ProxyAndPool T
      → List (ProxyAndPool T)
      → Result T
      → List (ProxyAndPool T) × Result (List (T × ℕ))
      → List (ProxyAndPool T) × Result (List (T × ℕ))
  spawn_next i p pools (err c) rest = (p ∷ pools, err c)
  spawn_next i p pools (ok table) (pools', tables) =
      (p ∷ pools', tables >>= λ ts. ok ((table, i) ∷ ts))

  unfoldable pub spawn_loop :
      (T → Outcome T) → ℕ → List (ProxyAndPool T) → List (ProxyAndPool T) × Result (List (T × ℕ))
  unfolding read_in_pool spawn_next unguarded
  spawn_loop functor i [] = ([], ok [])
  spawn_loop functor i (p ∷ pools) =
      let rest = spawn_loop functor (i + 1) pools in
      let read = read_in_pool p in
      spawn_next i read pools (unguarded (functor read.table_proxy)) rest

  -- Spawn of the proxy with the name `this`.
  unfoldable pub spawn :
      {N : Type 0}
      → N
      → (T → Outcome T)
      → IsolatedTableProxy T
      → IsolatedTableProxy T × Result (SpawnedProxy T N)
  unfolding spawn_loop
  spawn this functor itp =
      let (pools, tables) = spawn_loop functor 0 itp.proxy_pools in
      (
        record itp { proxy_pools = pools },
        tables >>= λ ts.
            ok (record { proxy_pools = ts; is_closed = false; dependencies = this ∷ [] }),
      )

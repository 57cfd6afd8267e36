-- ===== src/Proxy.antt =====
-- cpp/arcae/isolated_table_proxy.h and isolated_table_proxy.cc: a table is opened once for each of
-- several instances, and every access to an instance runs on the one thread of its pool, in the
-- order of submission. A pool holds the tasks that its thread has not run, which GetNumTasks
-- counts. A functor maps a table to the table it leaves and its outcome; an exception of casacore
-- is an outcome. Waiting for a future runs what stands before it in its pool. The casacore calls
-- that open and close a table are arguments.
pub mod Closing
pub mod Instances
pub mod Dependents
pub mod Refusal
pub mod Spawning
use casa_arrow.Base.{
  ℕ, zero, suc, ◌+◌, ◌-◌, ◌^◌, Bool, true, false, not, List, [], ◌∷◌, ◌++◌, map, length,
  if◌then◌else◌, ltb, Result, ok, err, Status, invalid, ◌>>=◌, ◌>>◌, leb, Option, some, none,
  get_elem?, set,
}

pub data Outcome {ℓ} (A : Type ℓ) : Type ℓ where
  returned : Result A → Outcome A
  -- casacore::AipsError
  thrown : Outcome A

-- The handler around a functor.
unfoldable pub guarded {ℓ} : {A : Type ℓ} → Outcome A → Result A
guarded (returned r) = r
guarded thrown = err invalid

module _ (T : Type 0) where
  pub record ProxyAndPool : Type 0 where
    pub table_proxy : T
    pub tasks : List (T → T)

  pub record IsolatedTableProxy : Type 0 where
    pub proxy_pools : List ProxyAndPool
    pub is_closed : Bool

-- The greatest int, with which GetInstance starts.
abbrev pub max_tasks : ℕ
max_tasks = 2 ^ 31 - 1

module _ {T : Type 0} where
  abbrev pub get_num_tasks : ProxyAndPool T → ℕ
  get_num_tasks p = length p.tasks

  -- The loop of GetInstance, from index i on.
  unfoldable pub instance_loop : ℕ → ℕ → ℕ → List (ProxyAndPool T) → ℕ
  instance_loop i best num_tasks [] = best
  instance_loop i best num_tasks (p ∷ pools) =
      let fewer = ltb (get_num_tasks p) num_tasks in
      instance_loop (i + 1) (if fewer then i else best)
        (if fewer then get_num_tasks p else num_tasks) pools

  unfoldable pub get_instance : IsolatedTableProxy T → ℕ
  unfolding instance_loop
  get_instance itp = instance_loop 0 0 max_tasks itp.proxy_pools

  unfoldable pub check_closed : IsolatedTableProxy T → Status
  check_closed itp = if itp.is_closed then err invalid else ok tt

  -- GetProxy and GetPool; `none` outside, where the source forbids the call.
  unfoldable pub get_pool : IsolatedTableProxy T → ℕ → Option (ProxyAndPool T)
  get_pool itp n = get_elem? itp.proxy_pools n

  -- The thread runs tasks one after the other.
  unfoldable pub run_tasks : List (T → T) → T → T
  run_tasks [] t = t
  run_tasks (f ∷ tasks) t = run_tasks tasks (f t)

  -- Submit
  unfoldable pub submit : (T → T) → ProxyAndPool T → ProxyAndPool T
  submit f p = record p { tasks = p.tasks ++ f ∷ [] }

  -- The thread has run all its tasks.
  unfoldable pub finish : ProxyAndPool T → ProxyAndPool T
  unfolding run_tasks
  finish p = record { table_proxy = run_tasks p.tasks p.table_proxy; tasks = [] }

  unfoldable pub at_pool :
      ℕ → (ProxyAndPool T → ProxyAndPool T) → List (ProxyAndPool T) → List (ProxyAndPool T)
  at_pool n f [] = []
  at_pool zero f (p ∷ pools) = f p ∷ pools
  at_pool (suc n) f (p ∷ pools) = p ∷ at_pool n f pools

  -- RunAsync: the functor waits in the pool of the least active instance.
  unfoldable pub run_async {ℓ} :
      {A : Type ℓ} → IsolatedTableProxy T → (T → T × Outcome A) → Result (IsolatedTableProxy T)
  unfolding check_closed get_instance at_pool submit
  run_async itp functor =
      check_closed itp
      >> ok (record itp {
        proxy_pools = at_pool (get_instance itp) (submit λ t. (functor t).0) itp.proxy_pools;
      })

  -- RunSync: the functor runs behind what waits in its pool, and its result is waited for.
  unfoldable pub run_sync {ℓ} :
      {A : Type ℓ}
      → IsolatedTableProxy T
      → (T → T × Outcome A)
      → Result (IsolatedTableProxy T × Result A)
  unfolding check_closed get_instance get_pool at_pool submit finish guarded
  run_sync itp functor = do
    _ ← check_closed itp
    let n = get_instance itp
    elim (get_pool itp n) [
      | none ↦ err invalid
      | some p ↦ ok (
        record itp {
          proxy_pools = at_pool n (λ q. finish (submit (λ t. (functor t).0) q)) itp.proxy_pools;
        },
        guarded ((functor (finish p).table_proxy).1),
      )
    ]

  -- Close, with TableProxy::close: the proxy behind it, and what it returns.
  unfoldable pub close : (T → T) → IsolatedTableProxy T → IsolatedTableProxy T × Result Bool
  unfolding submit finish
  close close_table itp =
      if not itp.is_closed
      then (
        record {
          proxy_pools = map (λ p. finish (submit close_table p)) itp.proxy_pools;
          is_closed = true;
        },
        ok true,
      )
      else (itp, ok false)

  -- The loop of Make over the instances; `open n` is what the functor returns for instance n.
  unfoldable pub open_loop : (ℕ → Result T) → ℕ → ℕ → Result (List (ProxyAndPool T))
  open_loop open_table i zero = ok []
  open_loop open_table i (suc rounds) = do
    table_proxy ← open_table i
    pools ← open_loop open_table (i + 1) rounds
    ok (record { table_proxy = table_proxy; tasks = [] } ∷ pools)

  unfoldable pub make : (ℕ → Result T) → ℕ → Result (IsolatedTableProxy T)
  unfolding open_loop
  make open_table ninstances =
      if ltb ninstances 1
      then err invalid
      else open_loop open_table 0 ninstances >>= λ pools.
          ok (record { proxy_pools = pools; is_closed = false })

-- ===== src/Proxy/Spawning.antt =====
-- Spawn of cpp/arcae/isolated_table_proxy.h.
use casa_arrow.Base.{
  ℕ, ◌+◌, ◌≡◌, refl, ◌∙◌, ap, ap₂, false, List, [], ◌∷◌, map, Result, ok, err, ◌>>=◌, map_result,
}
use casa_arrow.Proxy.{ProxyAndPool, IsolatedTableProxy, Outcome, run_tasks, finish, submit}
use casa_arrow.Proxy.Closing.{run_tasks-append}
use casa_arrow.Proxy.Dependents.{
  SpawnedProxy, unguarded, read_in_pool, spawn_next, spawn_loop, spawn,
}

-- Each thing with its number, from i on.
abbrev pub numbered : {A : Type 0} → ℕ → List A → List (A × ℕ)
numbered i [] = []
numbered i (x ∷ xs) = (x, i) ∷ numbered (i + 1) xs

-- An open proxy of the tables in the pools of a parent.
abbrev pub open_in_pools : {T N : Type 0} → N → List T → SpawnedProxy T N
open_in_pools parent tables = record {
  proxy_pools = numbered 0 tables;
  is_closed = false;
  dependencies = parent ∷ [];
}

module _ {T : Type 0} where
  -- The tables as they will be when all that waits has run.
  abbrev pub drained : List (ProxyAndPool T) → List T
  drained pools = map (λ p. run_tasks p.tasks p.table_proxy) pools

  read_in_pool-table :
      (p : ProxyAndPool T) → (read_in_pool p).table_proxy ≡ run_tasks p.tasks p.table_proxy
  unfolding read_in_pool submit finish
  read_in_pool-table p = run_tasks-append p.tasks (λ t. t) p.table_proxy

  read_in_pool-drained :
      (p : ProxyAndPool T)
      → run_tasks (read_in_pool p).tasks (read_in_pool p).table_proxy
        ≡ run_tasks p.tasks p.table_proxy
  unfolding read_in_pool submit finish run_tasks
  read_in_pool-drained p = run_tasks-append p.tasks (λ t. t) p.table_proxy

  spawn_next-result :
      (i : ℕ) (p : ProxyAndPool T) (pools : List (ProxyAndPool T)) (r : Result T)
      (rest : List (ProxyAndPool T) × Result (List (T × ℕ)))
      → (spawn_next i p pools r rest).1 ≡ (r >>= λ t. rest.1 >>= λ ts. ok ((t, i) ∷ ts))
  unfolding spawn_next
  spawn_next-result i p pools (err c) rest = refl
  spawn_next-result i p pools (ok t) (pools', tables) = refl

  spawn_next-drained :
      (i : ℕ) (p : ProxyAndPool T) (pools : List (ProxyAndPool T)) (r : Result T)
      (rest : List (ProxyAndPool T) × Result (List (T × ℕ)))
      → drained rest.0 ≡ drained pools
      → drained (spawn_next i p pools r rest).0 ≡ drained (p ∷ pools)
  unfolding spawn_next
  spawn_next-drained i p pools (err c) rest e = refl
  spawn_next-drained i p pools (ok t) (pools', tables) e =
      ap (◌∷◌ (run_tasks p.tasks p.table_proxy)) e

  numbered-next :
      (i : ℕ) (r : Result T) (tables : Result (List T))
      → (r >>= λ t. (tables >>= λ ts. ok (numbered (i + 1) ts)) >>= λ ts. ok ((t, i) ∷ ts))
        ≡ ((r >>= λ t. tables >>= λ ts. ok (t ∷ ts)) >>= λ ts. ok (numbered i ts))
  numbered-next i (err c) tables = refl
  numbered-next i (ok t) (err c) = refl
  numbered-next i (ok t) (ok ts) = refl

  spawn_loop-drained :
      (functor : T → Outcome T) (i : ℕ) (pools : List (ProxyAndPool T))
      → ((spawn_loop functor i pools).1
          ≡ (map_result (λ t. unguarded (functor t)) (drained pools) >>= λ ts. ok (numbered i ts)))
        × (drained (spawn_loop functor i pools).0 ≡ drained pools)
  unfolding spawn_loop
  spawn_loop-drained functor i [] = (refl, refl)
  spawn_loop-drained functor i (p ∷ pools) =
      let (result, kept) = spawn_loop-drained functor (i + 1) pools in
      let rest = spawn_loop functor (i + 1) pools in
      let read = read_in_pool p in
      let run = λ (t : T). unguarded (functor t) in
      (
        spawn_next-result i read pools (run read.table_proxy) rest
            ∙ ap₂ (λ t tables. run t >>= λ t'. tables >>= λ ts. ok ((t', i) ∷ ts))
                (read_in_pool-table p) result
            ∙ numbered-next i (run (run_tasks p.tasks p.table_proxy))
                (map_result run (drained pools)),
        spawn_next-drained i read pools (run read.table_proxy) rest kept
            ∙ ap (λ t. t ∷ drained pools) (read_in_pool-drained p),
      )

  open_numbered :
      {N : Type 0} (this : N) (tables : Result (List T))
      → ((tables >>= λ ts. ok (numbered 0 ts)) >>= λ ts.
          ok (record { proxy_pools = ts; is_closed = false; dependencies = this ∷ [] }))
        ≡ (tables >>= λ ts. ok (open_in_pools this ts))
  open_numbered this (err c) = refl
  open_numbered this (ok ts) = refl

  -- Spawn gives its functor each table as it is behind what waits for it. It returns an open proxy
  -- of the new tables in the pools of its parent, which it keeps, or the first error; what waits is
  -- not lost.
  pub spawn-drained :
      {N : Type 0} (this : N) (functor : T → Outcome T) (itp : IsolatedTableProxy T)
      → ((spawn this functor itp).1 ≡ (
          map_result (λ t. unguarded (functor t)) (drained itp.proxy_pools) >>= λ ts.
          ok (open_in_pools this ts)))
        × (drained (spawn this functor itp).0.proxy_pools ≡ drained itp.proxy_pools)
        × ((spawn this functor itp).0.is_closed ≡ itp.is_closed)
  unfolding spawn
  spawn-drained this functor itp =
      let (result, kept) = spawn_loop-drained functor 0 itp.proxy_pools in
      (
        ap
              (λ tables. tables >>= λ ts.
                ok (record { proxy_pools = ts; is_closed = false; dependencies = this ∷ [] }))
              result
            ∙ open_numbered this
                (map_result (λ t. unguarded (functor t)) (drained itp.proxy_pools)),
        kept,
        refl,
      )

-- ===== src/Proxy/Instances.antt =====
-- GetInstance of cpp/arcae/isolated_table_proxy.cc.
use casa_arrow.Base.{
  ℕ, suc, ◌+◌, ◌≤◌, ◌<◌, ◌≡◌, refl, ◌∙◌, ap, inl, inr, ◌⊎◌, List, [], ◌∷◌, get_elem?, some, ltb,
  arith, Bool-cases,
}
use casa_arrow.Proxy.{
  ProxyAndPool, IsolatedTableProxy, get_num_tasks, instance_loop, get_instance, max_tasks,
}

module _ {T : Type 0} where
  -- No pool in the list has fewer tasks.
  abbrev pub NoneFewer : ℕ → List (ProxyAndPool T) → Type 0
  NoneFewer n [] = Unit
  NoneFewer n (p ∷ pools) = (n ≤ get_num_tasks p) × NoneFewer n pools

  NoneFewer-le :
      (m n : ℕ) (pools : List (ProxyAndPool T)) → m ≤ n → NoneFewer n pools → NoneFewer m pools
  NoneFewer-le m n [] h k = tt
  NoneFewer-le m n (p ∷ pools) h k = (omega (arith, k.0), NoneFewer-le m n pools h k.1)

  -- The loop ends at the number it came with, or at a pool of the list.
  LoopOutcome : ℕ → ℕ → ℕ → List (ProxyAndPool T) → ℕ → Type 0
  LoopOutcome i best n pools k =
      ((k ≡ best) × NoneFewer n pools)
      ⊎ ((j : ℕ) × (p : ProxyAndPool T) × (k ≡ i + j)
          × (get_elem? pools j ≡ some p)
          × (get_num_tasks p < n)
          × NoneFewer (get_num_tasks p) pools)

  instance_loop-outcome :
      (i best n : ℕ) (pools : List (ProxyAndPool T))
      → LoopOutcome i best n pools (instance_loop i best n pools)
  unfolding instance_loop LoopOutcome
  instance_loop-outcome i best n [] = inl (refl, tt)
  instance_loop-outcome i best n (p ∷ pools) = elim (Bool-cases (ltb (get_num_tasks p) n)) [
    | inl fewer ↦
        let lt : get_num_tasks p < n = ground arith in
        rw fewer (elim (instance_loop-outcome (i + 1) i (get_num_tasks p) pools) [
          | inl (same, rest) ↦ inr (0, p, omega (arith, same), refl, lt, (omega arith, rest))
          | inr (j, q, at, found, less, rest) ↦
              inr (suc j, q, omega (arith, at), found, omega arith, (omega arith, rest))
        ])
    | inr more ↦
        let le : n ≤ get_num_tasks p = ground arith in
        rw more (elim (instance_loop-outcome (i + 1) best n pools) [
          | inl (same, rest) ↦ inl (same, (le, rest))
          | inr (j, q, at, found, less, rest) ↦
              inr (suc j, q, omega (arith, at), found, less, (omega arith, rest))
        ])
  ]

  -- Some pool has fewer tasks than an int can count.
  abbrev pub SomePoolCounts : List (ProxyAndPool T) → Type 0
  SomePoolCounts [] = ⊥
  SomePoolCounts (p ∷ pools) = (get_num_tasks p < max_tasks) ⊎ SomePoolCounts pools

  NoneFewer-SomePoolCounts :
      (pools : List (ProxyAndPool T)) → NoneFewer max_tasks pools → SomePoolCounts pools → ⊥
  NoneFewer-SomePoolCounts [] h k = k
  NoneFewer-SomePoolCounts (p ∷ pools) h (inl lt) = omega (arith, h.0)
  NoneFewer-SomePoolCounts (p ∷ pools) h (inr k) = NoneFewer-SomePoolCounts pools h.1 k

  -- GetInstance finds a pool, and none has fewer tasks, where the tasks of some pool are fewer
  -- than the greatest int.
  pub get_instance-NoneFewer :
      (itp : IsolatedTableProxy T)
      → SomePoolCounts itp.proxy_pools
      → (p : ProxyAndPool T) × (get_elem? itp.proxy_pools (get_instance itp) ≡ some p)
        × NoneFewer (get_num_tasks p) itp.proxy_pools
  unfolding get_instance LoopOutcome
  get_instance-NoneFewer itp counts =
      let pools = itp.proxy_pools in
      let k = instance_loop 0 0 max_tasks pools in
      elim (instance_loop-outcome 0 0 max_tasks pools) [
        | inl (same, rest) ↦ absurd (NoneFewer-SomePoolCounts pools rest counts)
        | inr (j, p, at, found, less, rest) ↦
            let here : k ≡ j = omega (arith, at) in (p, ap (get_elem? pools) here ∙ found, rest)
      ]

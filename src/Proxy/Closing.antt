-- ===== src/Proxy/Closing.antt =====
-- The life of the proxy of cpp/arcae/isolated_table_proxy.cc, from Make to Close.
use casa_arrow.Base.{
  ℕ, zero, suc, ◌+◌, ◌<◌, ◌≡◌, refl, ◌∙◌, sym, ap, inl, inr, List, [], ◌∷◌, ◌++◌, map, length, ltb,
  arith, Bool-cases, true, false, if◌then◌else◌, Result, ok, err, invalid, ◌>>=◌,
}
use casa_arrow.Proxy.{
  ProxyAndPool, IsolatedTableProxy, check_closed, run_async, run_sync, close, make, open_loop,
  Outcome, submit, finish, run_tasks,
}

module _ {T : Type 0} where
  pub run_tasks-append :
      (tasks : List (T → T)) (f : T → T) (t : T)
      → run_tasks (tasks ++ f ∷ []) t ≡ f (run_tasks tasks t)
  unfolding run_tasks
  run_tasks-append [] f t = refl
  run_tasks-append (g ∷ tasks) f t = run_tasks-append tasks f (g t)

  -- Every table is closed behind the tasks that were waiting for it, and nothing waits.
  abbrev pub AllClosed : (T → T) → List (ProxyAndPool T) → List (ProxyAndPool T) → Type 0
  AllClosed close_table [] [] = Unit
  AllClosed close_table [] (q ∷ after) = ⊥
  AllClosed close_table (p ∷ before) [] = ⊥
  AllClosed close_table (p ∷ before) (q ∷ after) =
      (q.table_proxy ≡ close_table (run_tasks p.tasks p.table_proxy))
      × (q.tasks ≡ [])
      × AllClosed close_table before after

  closed_pools :
      (close_table : T → T) (pools : List (ProxyAndPool T))
      → AllClosed close_table pools (map (λ p. finish (submit close_table p)) pools)
  unfolding finish submit
  closed_pools close_table [] = tt
  closed_pools close_table (p ∷ pools) =
      (run_tasks-append p.tasks close_table p.table_proxy, refl, closed_pools close_table pools)

  -- Close of an open proxy returns true, closes every table once, behind the tasks that wait for
  -- it, and marks the proxy as closed; to close it again returns false and changes nothing.
  pub close-close :
      (close_table : T → T) (itp : IsolatedTableProxy T)
      → itp.is_closed ≡ false
      → ((close close_table itp).1 ≡ ok true)
        × ((close close_table itp).0.is_closed ≡ true)
        × AllClosed close_table itp.proxy_pools (close close_table itp).0.proxy_pools
        × (close close_table (close close_table itp).0 ≡ ((close close_table itp).0, ok false))
  unfolding close
  close-close close_table itp open_now =
      rw open_now (refl, refl, closed_pools close_table itp.proxy_pools, refl)

  module _ (itp : IsolatedTableProxy T) (closed : itp.is_closed ≡ true) where
    pub refused : check_closed itp ≡ err invalid
    unfolding check_closed
    refused = ap (λ b. if b then err invalid else ok tt) closed

    pub run_async-refused {ℓ} :
        {A : Type ℓ} (functor : T → T × Outcome A) → run_async itp functor ≡ err invalid
    unfolding run_async
    run_async-refused functor = rw refused refl

    pub run_sync-refused {ℓ} :
        {A : Type ℓ} (functor : T → T × Outcome A) → run_sync itp functor ≡ err invalid
    unfolding run_sync
    run_sync-refused functor = rw refused refl

  pub closed_behind :
      (close_table : T → T) (itp : IsolatedTableProxy T)
      → (close close_table itp).0.is_closed ≡ true
  unfolding close
  closed_behind close_table itp = elim (Bool-cases (itp.is_closed)) [
    | inl closed ↦ simp (closed)
    | inr open_now ↦ simp (open_now)
  ]

-- Every opened table has a pool of its own, in order, in which nothing waits.
abbrev pub AllOpened : {T : Type 0} → (ℕ → Result T) → ℕ → List (ProxyAndPool T) → Type 0
AllOpened open_table i [] = Unit
AllOpened open_table i (p ∷ pools) =
    (open_table i ≡ ok p.table_proxy) × (p.tasks ≡ []) × AllOpened open_table (i + 1) pools

-- The pools, or the error of the first instance that could not be opened.
abbrev pub OpenOutcome :
    {T : Type 0} → (ℕ → Result T) → ℕ → ℕ → Result (List (ProxyAndPool T)) → Type 0
OpenOutcome open_table i n (ok pools) = (length pools ≡ n) × AllOpened open_table i pools
OpenOutcome open_table i n (err c) = (j : ℕ) × (j < n) × (open_table (i + j) ≡ err c)

abbrev pub MakeOutcome : {T : Type 0} → (ℕ → Result T) → ℕ → Result (IsolatedTableProxy T) → Type 0
MakeOutcome open_table n (ok itp) =
    (itp.is_closed ≡ false) × (length itp.proxy_pools ≡ n) × AllOpened open_table 0 itp.proxy_pools
MakeOutcome open_table n (err c) = (j : ℕ) × (j < n) × (open_table j ≡ err c)

module _ {T : Type 0} (open_table : ℕ → Result T) where
  open_loop-OpenOutcome : (i n : ℕ) → OpenOutcome open_table i n (open_loop open_table i n)
  unfolding open_loop
  open_loop-OpenOutcome i zero = (refl, tt)
  open_loop-OpenOutcome i (suc n) =
      opened (open_table i) refl (open_loop open_table (i + 1) n) (open_loop-OpenOutcome (i + 1) n)
    where
      opened :
          (first : Result T)
          → open_table i ≡ first
          → (rest : Result (List (ProxyAndPool T))) → OpenOutcome open_table (i + 1) n rest
          → OpenOutcome open_table i (suc n) (
              first >>= λ table_proxy.
              rest >>= λ pools. ok (record { table_proxy = table_proxy; tasks = [] } ∷ pools))
      opened (err c) e rest k =
          let here : i + 0 ≡ i = omega arith in (0, omega arith, ap open_table here ∙ e)
      opened (ok t) e (err c) (j, lt, failed) =
          let shift : i + suc j ≡ i + 1 + j = omega arith in
          (suc j, omega arith, ap open_table shift ∙ failed)
      opened (ok t) e (ok pools) (count, rest) = (ap suc count, (e, refl, rest))

  -- Make for at least one instance returns an open proxy with every instance opened, each in a
  -- pool of its own, or the error with which an instance could not be opened.
  pub make-MakeOutcome : (n : ℕ) → 0 < n → MakeOutcome open_table n (make open_table n)
  unfolding make
  make-MakeOutcome n h =
      let some_instance : ltb n 1 ≡ false = ground arith in
      rw some_instance (made (open_loop open_table 0 n) (open_loop-OpenOutcome 0 n))
    where
      made :
          (r : Result (List (ProxyAndPool T)))
          → OpenOutcome open_table 0 n r
          → MakeOutcome open_table n
              (r >>= λ pools. ok (record { proxy_pools = pools; is_closed = false }))
      made (ok pools) (count, all_opened) = (refl, count, all_opened)
      made (err c) (j, lt, failed) =
          let e : 0 + j ≡ j = omega arith in (j, lt, ap open_table (sym e) ∙ failed)

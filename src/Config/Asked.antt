-- ===== src/Config/Asked.antt =====
-- a1/src/db/config.h, init_config: which arguments make a configuration.
use cmsc_624_spring.Common.{
  ℕ, ◌≡◌, refl, sym, ◌∙◌, subst, Bool, true, false, Option, none, some, if◌then◌else◌, Map, find,
  is_some, arith, Option-cases, Bool-cases, inl, inr,
}
use cmsc_624_spring.Config.{
  ℤ, ExecModel, exec_model, is_pool, done, ExptConfig, max_outstanding_code, pool_size_code,
  exp_type_code, test_code, contention_code, config_of, init_sizes, init_config,
}

module _ {ℓ} {A : Type ℓ} (atoi : A → ℤ) where
  exits_missing :
      (m : Map A) (c : ExptConfig) → find exp_type_code m ≡ none → ¬ (init_config atoi m ≡ done c)
  unfolding init_config
  exits_missing m c e h = ground arith

  exits_bad :
      (m : Map A) (c : ExptConfig) (a : A)
      → find exp_type_code m ≡ some a
      → exec_model (atoi a) ≡ none
      → ¬ (init_config atoi m ≡ done c)
  unfolding init_config
  exits_bad m c a e t h = ground arith

  -- A pool size and no limit, or the other way round.
  abbrev pub PoolSize : (ℕ → Option A) → ExptConfig → Type ℓ
  PoolSize arg c =
      (b : A) × (arg pool_size_code ≡ some b)
      × (c.pool_size ≡ some (atoi b))
      × (arg max_outstanding_code ≡ none)
      × (c.max_outstanding ≡ none)

  abbrev pub Limit : (ℕ → Option A) → ExptConfig → Type ℓ
  Limit arg c =
      (b : A) × (arg max_outstanding_code ≡ some b)
      × (c.max_outstanding ≡ some (atoi b))
      × (arg pool_size_code ≡ none)
      × (c.pool_size ≡ none)

  -- The arguments ask for that configuration.
  pub record Asks (arg : ℕ → Option A) (c : ExptConfig) : Type ℓ where
    pub exp_type : (a : A) × (arg exp_type_code ≡ some a) × (exec_model (atoi a) ≡ some c.type)
    pub sizes : if is_pool c.type then PoolSize arg c else Limit arg c
    pub test : c.test ≡ is_some (arg test_code)
    pub contention : c.contention ≡ is_some (arg contention_code)

  pool-Asks :
      (m : Map A) (a b : A) (type : ExecModel)
      → find exp_type_code m ≡ some a
      → exec_model (atoi a) ≡ some type
      → is_pool type ≡ true
      → find pool_size_code m ≡ some b
      → find max_outstanding_code m ≡ none
      → Asks (λ k. find k m) (config_of atoi type m none (some (atoi b)))
  pool-Asks m a b type e t h p o = record {
    exp_type = (a, e, t);
    sizes = rw h (b, p, refl, o, refl);
    test = refl;
    contention = refl;
  }

  single-Asks :
      (m : Map A) (a b : A) (type : ExecModel)
      → find exp_type_code m ≡ some a
      → exec_model (atoi a) ≡ some type
      → is_pool type ≡ false
      → find max_outstanding_code m ≡ some b
      → find pool_size_code m ≡ none
      → Asks (λ k. find k m) (config_of atoi type m (some (atoi b)) none)
  single-Asks m a b type e t h o p = record {
    exp_type = (a, e, t);
    sizes = rw h (b, o, refl, p, refl);
    test = refl;
    contention = refl;
  }

  init_at :
      (m : Map A) (a : A) (type : ExecModel)
      → find exp_type_code m ≡ some a
      → exec_model (atoi a) ≡ some type
      → init_config atoi m ≡ init_sizes atoi (is_pool type) m (config_of atoi type m)
  unfolding init_config
  init_at m a type e t = rw (e, t) refl

  sizes-Asks :
      (m : Map A) (a : A) (type : ExecModel) (c : ExptConfig)
      → find exp_type_code m ≡ some a
      → exec_model (atoi a) ≡ some type
      → init_sizes atoi (is_pool type) m (config_of atoi type m) ≡ done c
      → Asks (λ k. find k m) c
  unfolding init_sizes
  sizes-Asks m a type c e t h = elim (Bool-cases (is_pool type)) [
    | inl pool ↦ elim (Option-cases (find pool_size_code m)) [
      | inl missing ↦ absurd (ground arith)
      | inr (b, given) ↦ elim (Option-cases (find max_outstanding_code m)) [
        | inl absent ↦
            let made : config_of atoi type m none (some (atoi b)) ≡ c = ground arith in
            subst (Asks (λ k. find k m)) made (pool-Asks m a b type e t pool given absent)
        | inr (z, superfluous) ↦ absurd (ground arith)
      ]
    ]
    | inr single ↦ elim (Option-cases (find max_outstanding_code m)) [
      | inl missing ↦ absurd (ground arith)
      | inr (b, given) ↦ elim (Option-cases (find pool_size_code m)) [
        | inl absent ↦
            let made : config_of atoi type m (some (atoi b)) none ≡ c = ground arith in
            subst (Asks (λ k. find k m)) made (single-Asks m a b type e t single given absent)
        | inr (z, superfluous) ↦ absurd (ground arith)
      ]
    ]
  ]

  pub init_config-Asks :
      (m : Map A) (c : ExptConfig) → init_config atoi m ≡ done c → Asks (λ k. find k m) c
  init_config-Asks m c h = elim (Option-cases (find exp_type_code m)) [
    | inl missing ↦ absurd (exits_missing m c missing h)
    | inr (a, e) ↦ elim (Option-cases (exec_model (atoi a))) [
      | inl bad ↦ absurd (exits_bad m c a e bad h)
      | inr (type, t) ↦ sizes-Asks m a type c e t (sym (init_at m a type e t) ∙ h)
    ]
  ]

  size_made_pool :
      (m : Map A) (c : ExptConfig)
      → is_pool c.type ≡ true
      → PoolSize (λ k. find k m) c
      → c.test ≡ is_some (find test_code m)
      → c.contention ≡ is_some (find contention_code m)
      → init_sizes atoi (is_pool c.type) m (config_of atoi c.type m) ≡ done c
  unfolding init_sizes
  size_made_pool m c h (b, given, size, absent, unset) test contention = ground arith

  size_made_single :
      (m : Map A) (c : ExptConfig)
      → is_pool c.type ≡ false
      → Limit (λ k. find k m) c
      → c.test ≡ is_some (find test_code m)
      → c.contention ≡ is_some (find contention_code m)
      → init_sizes atoi (is_pool c.type) m (config_of atoi c.type m) ≡ done c
  unfolding init_sizes
  size_made_single m c h (b, given, size, absent, unset) test contention = ground arith

  chosen :
      (m : Map A) (c : ExptConfig) (b : Bool)
      → (if b then PoolSize (λ k. find k m) c else Limit (λ k. find k m) c)
      → is_pool c.type ≡ b
      → Asks (λ k. find k m) c
      → init_sizes atoi (is_pool c.type) m (config_of atoi c.type m) ≡ done c
  chosen m c true sizes h asks = size_made_pool m c h sizes asks.test asks.contention
  chosen m c false sizes h asks = size_made_single m c h sizes asks.test asks.contention

  pub Asks-init_config :
      (m : Map A) (c : ExptConfig) → Asks (λ k. find k m) c → init_config atoi m ≡ done c
  Asks-init_config m c asks =
      let (a, e, t) = asks.exp_type in
      init_at m a c.type e t ∙ chosen m c (is_pool c.type) asks.sizes refl asks

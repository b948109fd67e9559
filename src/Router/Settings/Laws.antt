-- ===== src/Router/Settings/Laws.antt =====
-- The live configuration: patches are atomic and valid; what the autoscaler does to it is neither.
use helix_router_adaptive_as.Common.{
  ℕ, ◌<◌, ◌≡◌, ◌-◌, refl, sym, ap, ◌∙◌, ◌⊎◌, inl, inr, Option, none, some, arith, max,
}
use helix_router_adaptive_as.Floats.{Floats}
use helix_router_adaptive_as.Types.{Job}
use helix_router_adaptive_as.Config.{
  RouterConfig, RouterConfigPatch, ConfigError, Result, ok, err, validate, merge, override,
}
use helix_router_adaptive_as.Config.Valid.{IsValid, validate-iff-IsValid}
use helix_router_adaptive_as.Router.Choose.{choose_strategy, decide}
use helix_router_adaptive_as.Router.State.{Inner}
use helix_router_adaptive_as.Router.Submit.{Env, verdict}
use helix_router_adaptive_as.Router.Settings.{
  up, down, set_config, patch_config, apply_recommendation,
}

override_twice {ℓ} : {A : Type ℓ} (o : Option A) (a : A) → override o (override o a) ≡ override o a
override_twice none a = refl
override_twice (some v) a = refl

module _ {fl : Floats} where
  patch_cases :
      (s : Inner fl) (p : RouterConfigPatch fl) (r : Result ConfigError (Unit {0}))
      → validate fl (merge fl p s.cfg) ≡ r
      → (((patch_config s p).1 ≡ ok (merge fl p s.cfg))
          × ((patch_config s p).0 ≡ set_config s (merge fl p s.cfg))
          × IsValid fl (merge fl p s.cfg))
        ⊎ ((e : ConfigError) × ((patch_config s p).1 ≡ err e) × ((patch_config s p).0 ≡ s))
  unfolding patch_config set_config
  patch_cases s p (ok tt) h =
      inl (rw (h, patch_config), rw (h, patch_config), (validate-iff-IsValid fl _).0 h)
  patch_cases s p (err e) h = inr (e, rw (h, patch_config), rw (h, patch_config))

  -- A patch is all or nothing: either the merged configuration is valid, is returned, and is
  -- the live one and its snapshot while nothing else changes, or an error is returned and the
  -- state is what it was.
  pub patch_config_atomic :
      (s : Inner fl) (p : RouterConfigPatch fl)
      → (((patch_config s p).1 ≡ ok (merge fl p s.cfg))
          × ((patch_config s p).0 ≡ set_config s (merge fl p s.cfg))
          × IsValid fl (merge fl p s.cfg))
        ⊎ ((e : ConfigError) × ((patch_config s p).1 ≡ err e) × ((patch_config s p).0 ≡ s))
  patch_config_atomic s p = patch_cases s p (validate fl (merge fl p s.cfg)) refl

  abbrev pub spawn_only : ℕ → RouterConfigPatch fl
  spawn_only t = record {
    inline_threshold = none;
    spawn_threshold = some t;
    cpu_queue_cap = none;
    cpu_parallelism = none;
    backpressure_busy_threshold = none;
    batch_max_size = none;
    batch_max_delay_ms = none;
    ema_alpha = none;
    adaptive_step = none;
    cpu_p95_budget_ms = none;
    adaptive_p95_threshold_factor = none;
    version = none;
    enable_adaptive_threshold = none;
    sla = none;
    warmup_steps = none;
  }

  verdict-set_config :
      (env : Env fl) (s : Inner fl) (job : Job fl) (t : ℕ)
      → s.cfg_arc ≡ s.cfg
      → verdict env (set_config s (merge fl (spawn_only t) s.cfg)) job ≡ verdict env s job
  unfolding verdict set_config merge
  verdict-set_config env s job t e =
      ap
        (λ (c : RouterConfig fl).
          decide
            (choose_strategy fl (record c { spawn_threshold = s.adaptive_spawn_threshold }) job
              (c.cpu_parallelism - s.available_permits))
            env.neural)
        (sym e)

  -- A patch that sets the spawn threshold alone changes no routing decision of `submit`, while the
  -- snapshot agrees with the configuration: the adaptive threshold goes on to decide.
  pub verdict-patch_spawn :
      (env : Env fl) (s : Inner fl) (job : Job fl) (t : ℕ)
      → s.cfg_arc ≡ s.cfg
      → verdict env (patch_config s (spawn_only t)).0 job ≡ verdict env s job
  verdict-patch_spawn env s job t e = elim (patch_config_atomic s (spawn_only t)) [
    | inl (_, set, _) ↦ ap (λ u. verdict env u job) set ∙ verdict-set_config env s job t e
    | inr (_, _, kept) ↦ ap (λ u. verdict env u job) kept
  ]

  -- Merging the same patch again changes nothing.
  pub merge_idem :
      (p : RouterConfigPatch fl) (c : RouterConfig fl) → merge fl p (merge fl p c) ≡ merge fl p c
  unfolding merge
  merge_idem p c = simp override_twice

  -- With more workers than 16 and than the recommended capacity, a recommendation to scale down
  -- makes a valid configuration invalid.
  pub scale_down_invalid :
      (s : Inner fl) (cap : ℕ)
      → max cap 16 < s.cfg.cpu_parallelism
      → IsValid fl s.cfg
      → ¬ IsValid fl
          (apply_recommendation s
            (some (record { direction = down; recommended_queue_cap = cap }))).cfg
  unfolding apply_recommendation
  scale_down_invalid s cap h v w = ground (arith, w.queue_holds)

  -- Where the snapshot that `submit` reads agrees with the configuration, a recommendation to scale up
  -- a queue that is below it and below 4096 leaves the snapshot with less capacity.
  pub scale_up_desyncs :
      (s : Inner fl) (cap : ℕ)
      → s.cfg_arc ≡ s.cfg
      → s.cfg.cpu_queue_cap < cap
      → s.cfg.cpu_queue_cap < 4096
      → let t =
          apply_recommendation s (some (record { direction = up; recommended_queue_cap = cap })) in
        t.cfg_arc.cpu_queue_cap < t.cfg.cpu_queue_cap
  unfolding apply_recommendation
  scale_up_desyncs s cap e h small = ground (arith, ap (λ (c : RouterConfig fl). c.cpu_queue_cap) e)

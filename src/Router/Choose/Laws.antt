-- ===== src/Router/Choose/Laws.antt =====
-- What `choose_strategy` promises, and that the neural router cannot undo it.
use helix_router_adaptive_as.Common.{ℕ, ◌≤◌, ◌≡◌, ◌↔◌, true, false, ◌⊎◌, arith}
use helix_router_adaptive_as.Floats.{Floats}
use helix_router_adaptive_as.Types.{Job, Strategy}
use helix_router_adaptive_as.Config.{RouterConfig}
use helix_router_adaptive_as.Router.Choose.{choose_strategy, decide, NeuralAnswer}

-- How far a strategy moves work away from the calling task.
abbrev pub distance : Strategy → ℕ
distance Strategy.inline = 0
distance Strategy.spawn = 1
distance Strategy.cpu_pool = 2
distance Strategy.batch = 2
distance Strategy.drop = 3

module _ (fl : Floats) where
  -- A job is dropped exactly when the pool is at its backpressure threshold and the job's scaling
  -- potential is below 0.65; its cost plays no part.
  pub choose-eq-drop_iff :
      (cfg : RouterConfig fl) (job : Job fl) (busy : ℕ)
      → (choose_strategy fl cfg job busy ≡ Strategy.drop) ↔ (
          (cfg.backpressure_busy_threshold ≤ busy)
          × (fl.le32 (fl.lit32 65) job.scaling_potential ≡ false))
  unfolding choose_strategy
  choose-eq-drop_iff cfg job busy = (λ h. ground arith, λ h. ground arith)

  -- Of two jobs with the same scaling potential, at the same load, the costlier one is never
  -- placed nearer to the calling task.
  pub distance-choose_mono :
      (cfg : RouterConfig fl) (job job' : Job fl) (busy : ℕ)
      → job.scaling_potential ≡ job'.scaling_potential
      → job.compute_cost ≤ job'.compute_cost
      → distance (choose_strategy fl cfg job busy) ≤ distance (choose_strategy fl cfg job' busy)
  unfolding choose_strategy
  distance-choose_mono cfg job job' busy e h = ground arith

-- The neural router never drops a job that the heuristic keeps and never keeps one that the
-- heuristic drops; a strategy other than the heuristic's is a warm neural choice.
pub decide_safe :
    (base : Strategy) (n : NeuralAnswer)
    → (((decide base n).0 ≡ Strategy.drop) ↔ (base ≡ Strategy.drop))
      × (((decide base n).0 ≡ base) ⊎ ((n.warmed ≡ true) × ((decide base n).0 ≡ n.choice)))
unfolding decide
decide_safe base n = ((λ h. ground arith, λ h. ground arith), ground arith)

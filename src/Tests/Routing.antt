-- ===== src/Tests/Routing.antt =====
-- The theorems on the router at concrete states.
use helix_router_adaptive_as.Common.{
  ◌+◌, ◌%◌, ◌≤◌, ◌<◌, ◌≡◌, ◌⊎◌, ◌↔◌, refl, true, false, [], ◌∷◌, ◌++◌, none, some, map, take, min,
  arith,
}
use helix_router_adaptive_as.Words.{u64_mod}
use helix_router_adaptive_as.Types.{Job, JobKind, Strategy}
use helix_router_adaptive_as.Config.{ConfigError, ok, err, default, merge}
use helix_router_adaptive_as.Config.Valid.{IsValid}
use helix_router_adaptive_as.Router.State.{Inner, at_kind}
use helix_router_adaptive_as.Router.Choose.{choose_strategy, decide}
use helix_router_adaptive_as.Router.Choose.Laws.{
  choose-eq-drop_iff, distance, distance-choose_mono, decide_safe,
}
use helix_router_adaptive_as.Router.Batch.{flush_batch_kind, sort_by_seq}
use helix_router_adaptive_as.Router.Batch.Laws.{flush_answers, reply_of, InOrder}
use helix_router_adaptive_as.Router.Submit.{start, resume}
use helix_router_adaptive_as.Router.Submit.Laws.{
  Counts, start_counts, resume-Counts, won_now, lost_now,
}
use helix_router_adaptive_as.Router.Run.{run}
use helix_router_adaptive_as.Router.Run.Laws.{run_counts, completed_in, dropped_in}
use helix_router_adaptive_as.Router.Settings.{
  patch_config, set_config, apply_recommendation, ScaleDirection,
}
use helix_router_adaptive_as.Router.Settings.Laws.{
  patch_config_atomic, spawn_only, merge_idem, scale_down_invalid, scale_up_desyncs,
}
use helix_router_adaptive_as.Router.Adapt.{maybe_adapt_threshold}
use helix_router_adaptive_as.Router.Adapt.Laws.{IsWithin, maybe_adapt-IsWithin}
use helix_router_adaptive_as.Router.World.{World, joined, Reach, Step, Inv, Reach-Inv}
use helix_router_adaptive_as.Tests.Data.{
  fixed, fixed-RoundingLaws, fresh, job_of, env, cold, hint, run_env, waiting,
}

abbrev heavy : Job fixed
heavy = job_of 70_000 10

abbrev parallel : Job fixed
parallel = job_of 70_000 90

-- A buffer with three jobs, of which the configuration takes two at a time.
abbrev buffered : Inner fixed
buffered = record fresh {
  cfg = record (default fixed) { batch_max_size = 2 };
  batches = record {
    hash_mix =
        record { job = heavy; seq = 0 }
        ∷ record { job = parallel; seq = 1 }
        ∷ record { job = heavy; seq = 2 }
        ∷ [];
    prime_count = [];
    monte_carlo_risk = [];
  };
  batch_enqueued = record { hash_mix = 3; prime_count = 0; monte_carlo_risk = 0 };
}

abbrev crowded : Inner fixed
crowded = record fresh { cfg = record (default fixed) { cpu_parallelism = 32 } }

crowded-IsValid : IsValid fixed crowded.cfg
crowded-IsValid = record {
  inline_pos = omega arith;
  inline_lt_spawn = omega arith;
  parallelism_pos = omega arith;
  queue_holds = omega arith;
  batch_size = omega arith;
  ema_alpha_unit = refl;
  adaptive_step_unit = refl;
}

abbrev idle_world : World fixed
idle_world = record { inner = fresh; waiting = [] }

idle_world-Inv : Inv idle_world
idle_world-Inv = record { accounted = refl; log_bound = omega arith }

Reach-Inv_example :
    Inv
      (record { inner = (start env fresh heavy).0; waiting = joined [] (start env fresh heavy).1 })
Reach-Inv_example = Reach-Inv (Reach.next Reach.here (Step.submits env heavy)) idle_world-Inv

flush_answers_example :
    let t = flush_batch_kind (λ n. 5) JobKind.hash_mix buffered in
    let oldest = take (min 3 2) (at_kind buffered.batches JobKind.hash_mix) in
    (t.replies ≡ [] ++ map reply_of (sort_by_seq oldest))
    × InOrder (sort_by_seq oldest)
    × (oldest ++ at_kind t.batches JobKind.hash_mix ≡ at_kind buffered.batches JobKind.hash_mix)
flush_answers_example = flush_answers (λ n. 5) JobKind.hash_mix buffered

start_counts_example :
    let (t, p) = start env fresh heavy in
    (t.completed % u64_mod ≡ (0 + won_now p) % u64_mod)
    × (t.dropped % u64_mod ≡ (0 + lost_now p) % u64_mod)
    × (t.submit_counter ≡ (0 + 1) % u64_mod)
start_counts_example = start_counts env fresh heavy

resume-Counts_example : let (t, o) = resume fresh waiting none 4 in (o ≡ none) × Counts fresh t 0 1
resume-Counts_example = resume-Counts fresh waiting none 4

run_counts_example :
    let (t, end) = run run_env fresh hint in
    (t.completed % u64_mod ≡ (0 + completed_in end) % u64_mod)
    × (t.dropped % u64_mod ≡ (0 + dropped_in end) % u64_mod)
    × (t.available_permits ≡ 8)
run_counts_example = run_counts run_env fresh hint

patch_config_atomic_example :
    (((patch_config fresh (spawn_only 9_000)).1 ≡ ok (merge fixed (spawn_only 9_000) fresh.cfg))
      × ((patch_config fresh (spawn_only 9_000)).0
          ≡ set_config fresh (merge fixed (spawn_only 9_000) fresh.cfg))
      × IsValid fixed (merge fixed (spawn_only 9_000) fresh.cfg))
    ⊎ ((e : ConfigError) × ((patch_config fresh (spawn_only 9_000)).1 ≡ err e)
        × ((patch_config fresh (spawn_only 9_000)).0 ≡ fresh))
patch_config_atomic_example = patch_config_atomic fresh (spawn_only 9_000)

choose-eq-drop_iff_example :
    (choose_strategy fixed (default fixed) heavy 7 ≡ Strategy.drop)
    ↔ ((7 ≤ 7) × (fixed.le32 (fixed.lit32 65) heavy.scaling_potential ≡ false))
choose-eq-drop_iff_example = choose-eq-drop_iff fixed (default fixed) heavy 7

distance-choose_mono_example :
    distance (choose_strategy fixed (default fixed) (job_of 100 10) 2)
    ≤ distance (choose_strategy fixed (default fixed) heavy 2)
distance-choose_mono_example =
    distance-choose_mono fixed (default fixed) (job_of 100 10) heavy 2 refl (omega arith)

decide_safe_example :
    (((decide Strategy.batch cold).0 ≡ Strategy.drop) ↔ (Strategy.batch ≡ Strategy.drop))
    × (((decide Strategy.batch cold).0 ≡ Strategy.batch)
        ⊎ ((cold.warmed ≡ true) × ((decide Strategy.batch cold).0 ≡ cold.choice)))
decide_safe_example = decide_safe Strategy.batch cold

maybe_adapt-IsWithin_example :
    IsWithin (maybe_adapt_threshold fresh (some (record { count = 20; p95_ms = 900 })))
maybe_adapt-IsWithin_example =
    maybe_adapt-IsWithin fresh (some (record { count = 20; p95_ms = 900 })) fixed-RoundingLaws refl
      (omega arith) (omega arith, omega arith)

merge_idem_example :
    merge fixed (spawn_only 9_000) (merge fixed (spawn_only 9_000) (default fixed))
    ≡ merge fixed (spawn_only 9_000) (default fixed)
merge_idem_example = merge_idem (spawn_only 9_000) (default fixed)

scale_down_invalid_example :
    ¬ IsValid fixed
      (apply_recommendation crowded
        (some (record { direction = ScaleDirection.down; recommended_queue_cap = 20 }))).cfg
scale_down_invalid_example = scale_down_invalid crowded 20 (omega arith) crowded-IsValid

scale_up_desyncs_example :
    let t =
      apply_recommendation fresh
        (some (record { direction = ScaleDirection.up; recommended_queue_cap = 1024 })) in
    t.cfg_arc.cpu_queue_cap < t.cfg.cpu_queue_cap
scale_up_desyncs_example = scale_up_desyncs fresh 1024 refl (omega arith) (omega arith)

-- ===== src/Router/World.antt =====
-- The router with the calls of `submit` that wait, as a step relation: callers, the flusher, the
-- CPU loop and the operations on the configuration take steps in any order.
use helix_router_adaptive_as.Common.{
  ℕ, ◌+◌, ◌%◌, ◌≤◌, ◌≡◌, refl, ap, inl, inr, Bool, List, ◌∷◌, ◌++◌, Option, none, some, arith,
  length, length-append,
}
use helix_router_adaptive_as.Words.{u64_mod}
use helix_router_adaptive_as.Floats.{Floats}
use helix_router_adaptive_as.Types.{Job, JobKind, Output}
use helix_router_adaptive_as.Config.{RouterConfigPatch}
use helix_router_adaptive_as.Router.State.{Inner}
use helix_router_adaptive_as.Router.Batch.{flush_batch_kind}
use helix_router_adaptive_as.Router.Batch.Laws.{flush_cases}
use helix_router_adaptive_as.Router.CpuPool.{take_work, finish_work}
use helix_router_adaptive_as.Router.Settings.{patch_config, set_config}
use helix_router_adaptive_as.Router.Settings.Laws.{patch_config_atomic}
use helix_router_adaptive_as.Router.Submit.{Env, Waiting, Progress, start, resume}
use helix_router_adaptive_as.Router.Submit.Laws.{
  start_counts, resume-Counts, won, lost, won_now, lost_now,
}
use helix_router_adaptive_as.Router.Submit.Log.{length-log-start, log-resume}

pub record World (fl : Floats) : Type 0 where
  pub inner : Inner fl
  pub waiting : List (Waiting fl)

module _ {fl : Floats} where
  abbrev pub joined : List (Waiting fl) → Progress fl → List (Waiting fl)
  joined ws (Progress.done o) = ws
  joined ws (Progress.waits w) = w ∷ ws

  pub data Step (w : World fl) : World fl → Type 0 where
    submits :
        (env : Env fl) (job : Job fl)
        → Step w (record {
          inner = (start env w.inner job).0;
          waiting = joined w.waiting (start env w.inner job).1;
        })
    resumes :
        (xs : List (Waiting fl)) (x : Waiting fl) (ys : List (Waiting fl))
        (reply : Option (List (Output fl))) (ms : ℕ)
        → w.waiting ≡ xs ++ (x ∷ ys)
        → Step w (record { inner = (resume w.inner x reply ms).0; waiting = xs ++ ys })
    flushes :
        (age : ℕ → ℕ) (kind : JobKind)
        → Step w (record w { inner = flush_batch_kind age kind w.inner })
    works :
        (job : Job fl) (t : Inner fl)
        → take_work w.inner ≡ some (job, t)
        → Step w (record w { inner = t })
    finishes :
        (panicked : Bool) (ms : ℕ) → Step w (record w { inner = finish_work w.inner panicked ms })
    patches : (p : RouterConfigPatch fl) → Step w (record w { inner = (patch_config w.inner p).0 })

  pub data Reach (w : World fl) : World fl → Type 0 where
    here : Reach w w
    next : {u v : World fl} → Reach w u → Step u v → Reach w v

  -- The counters agree, modulo 2^64, and the log holds its bound.
  pub record Inv (w : World fl) : Type 0 where
    pub accounted :
        w.inner.submit_counter % u64_mod
        ≡ (w.inner.completed + w.inner.dropped + length w.waiting) % u64_mod
    pub log_bound : length w.inner.routing_log ≤ 50

  length-joined :
      (ws : List (Waiting fl)) (p : Progress fl)
      → length (joined ws p) + won_now p + lost_now p ≡ length ws + 1
  length-joined ws (Progress.done none) = omega arith
  length-joined ws (Progress.done (some out)) = omega arith
  length-joined ws (Progress.waits w) = omega arith

  won-lost : (o : Option (List (Output fl))) → won o + lost o ≡ 1
  won-lost none = refl
  won-lost (some out) = refl

  submits-Inv :
      (u : World fl) (env : Env fl) (job : Job fl)
      → Inv u
      → Inv (record {
        inner = (start env u.inner job).0;
        waiting = joined u.waiting (start env u.inner job).1;
      })
  submits-Inv u env job i = record {
    accounted = omega (
      arith,
      i.accounted,
      start_counts env u.inner job,
      length-joined u.waiting (start env u.inner job).1,
    );
    log_bound = length-log-start env u.inner job i.log_bound;
  }

  length-middle :
      (xs : List (Waiting fl)) (x : Waiting fl) (ys : List (Waiting fl))
      → length (xs ++ (x ∷ ys)) ≡ length (xs ++ ys) + 1
  length-middle xs x ys = omega (arith, length-append xs (x ∷ ys), length-append xs ys)

  resumes-Inv :
      (u : World fl) (xs : List (Waiting fl)) (x : Waiting fl) (ys : List (Waiting fl))
      (reply : Option (List (Output fl))) (ms : ℕ)
      → u.waiting ≡ xs ++ (x ∷ ys)
      → Inv u
      → Inv (record { inner = (resume u.inner x reply ms).0; waiting = xs ++ ys })
  resumes-Inv u xs x ys reply ms e i = record {
    accounted =
        let c = (resume-Counts u.inner x reply ms).1 in
        omega (
          arith,
          i.accounted,
          c.completed_by,
          c.dropped_by,
          c.submitted,
          won-lost reply,
          ap length e,
          length-middle xs x ys,
        );
    log_bound = rw (log-resume u.inner x reply ms) i.log_bound;
  }

  works-Inv :
      (u : World fl) (job : Job fl) (t : Inner fl)
      → take_work u.inner ≡ some (job, t)
      → Inv u
      → Inv (record u { inner = t })
  unfolding take_work
  works-Inv u job t e i = ground arith

  finishes-Inv :
      (u : World fl) (panicked : Bool) (ms : ℕ)
      → Inv u
      → Inv (record u { inner = finish_work u.inner panicked ms })
  unfolding finish_work
  finishes-Inv u panicked ms i = record { accounted = i.accounted; log_bound = i.log_bound }

  patches-Inv :
      (u : World fl) (p : RouterConfigPatch fl)
      → Inv u
      → Inv (record u { inner = (patch_config u.inner p).0 })
  unfolding set_config
  patches-Inv u p i = elim (patch_config_atomic u.inner p) [
    | inl (_, set, _) ↦ rw set (record { accounted = i.accounted; log_bound = i.log_bound })
    | inr (_, _, kept) ↦ rw kept i
  ]

  -- Every step keeps the account and the bound of the log.
  Step-Inv : {u v : World fl} → Step u v → Inv u → Inv v
  Step-Inv {u} (submits env job) i = submits-Inv u env job i
  Step-Inv {u} (resumes xs x ys reply ms e) i = resumes-Inv u xs x ys reply ms e i
  Step-Inv {u} (flushes age kind) i =
      flush_cases (λ t. Inv (record u { inner = t })) age kind u.inner i
        (record { accounted = i.accounted; log_bound = i.log_bound })
  Step-Inv {u} (works job t e) i = works-Inv u job t e i
  Step-Inv {u} (finishes panicked ms) i = finishes-Inv u panicked ms i
  Step-Inv {u} (patches p) i = patches-Inv u p i

  -- From a world in which this holds, and however callers, workers, flushes and patches interleave,
  -- each submitted job is completed, dropped or still waiting, modulo the wrap of the counters, and
  -- the log holds at most 50 decisions.
  pub Reach-Inv : {u v : World fl} → Reach u v → Inv u → Inv v
  Reach-Inv here i = i
  Reach-Inv (next r st) i = Step-Inv st (Reach-Inv r i)

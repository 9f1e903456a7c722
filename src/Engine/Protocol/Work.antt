-- ===== src/Engine/Protocol/Work.antt =====
-- The parts of a pass that only make calls of work.
use sync_hub_for_agents.Base.{
  ◌≡◌, refl, Bool, true, Option, none, some, List, [], ◌∷◌, inl, inr, arith,
}
use sync_hub_for_agents.Base.{◌==◌}
use sync_hub_for_agents.Base.Text.{Text, text_eq, codes}
use sync_hub_for_agents.Base.Dict.{Dict}
use sync_hub_for_agents.Base.Stateful.{◌>>=◌, return}
use sync_hub_for_agents.Resource.Model.{Issue}
use sync_hub_for_agents.Resource.Spec.{Spec}
use sync_hub_for_agents.Sync.Reconcile.{Action}
use sync_hub_for_agents.Conflict.Model.{Record, ResolutionBatch}
use sync_hub_for_agents.Conflict.Transaction.{AppliedResolution}
use sync_hub_for_agents.State.{Snapshot}
use sync_hub_for_agents.Engine.{
  Call, publish, restore_resolved, Step, Artifact, Collected, Environment, Engine, Progress, ask,
}
use sync_hub_for_agents.Engine.Apply.{Context, Loop}
use sync_hub_for_agents.Engine.Resolve.{
  RemoteView, Resolved, load_remote, with_specs, preflight_resolution_batch, preflight_records,
  restore_owned, restore_resolution, restore_each, adopt_resolutions, apply_unless_held,
  resolve_batch, resolve_pending, adopt,
}
use sync_hub_for_agents.Engine.Pass.{Pass}
use sync_hub_for_agents.Engine.Cycle.{
  announce_stage, prepare, pending_plan, manifest_in, current_install_manifests, install_pass,
  apply_pass, with_found,
}
use sync_hub_for_agents.Engine.Only.{
  Only, Only-return, Only-bind, Only-if, Only-try_call, Only-perform, Only-ask, Only-weaken,
  Only-read, Only-given,
}
use sync_hub_for_agents.Engine.Held.{MayCall, for_action, news_only, apply_actions-MayCall, touched}
use sync_hub_for_agents.Engine.Protocol.{prepares}
use sync_hub_for_agents.Engine.Protocol.Kept.{Work}

module _ (env : Environment) (e : Engine) where
  announce_stage-Work : (p : Progress) → Only Work (announce_stage env e p)
  unfolding announce_stage
  announce_stage-Work p = Only-bind (Only-try_call env (publish p) (inr refl)) (λ _. Only-return)

  load_remote-Work : Only Work (load_remote env e)
  unfolding load_remote
  load_remote-Work =
      Only-bind (Only-ask env _)
        (λ snapshot. Only-bind (Only-perform env _ _ (inl refl)) (λ _. Only-read))

  pub prepare-Work : Only Work (prepare env e)
  unfolding prepare
  prepare-Work = Only-bind (Only-perform env _ _ (inl refl)) (λ _.
      Only-bind (Only-perform env _ _ (inl refl)) (λ _. Only-bind (announce_stage-Work _) (λ _.
        Only-bind (Only-perform env _ _ (inl refl)) (λ _. Only-bind (Only-ask env _) (λ base.
          Only-bind load_remote-Work (λ remote. Only-bind (Only-perform env _ _ (inl refl)) (λ _.
            Only-bind (Only-perform env _ _ (inl refl)) (λ _.
              Only-bind (announce_stage-Work _)
                (λ _. Only-bind (Only-ask env _) (λ collected. Only-return))))))))))

  restore_owned-Work : (r : Record) (spec : Option Spec) → Only Work (restore_owned env e r spec)
  unfolding restore_owned
  restore_owned-Work r none = Only-return
  restore_owned-Work r (some spec) = Only-if _ Only-return (
      Only-bind (Only-try_call env (restore_resolved r.repo_rel) (inl refl))
        (λ worked. Only-return))

  restore_resolution-Work : (a : AppliedResolution) → Only Work (restore_resolution env e a)
  unfolding restore_resolution
  restore_resolution-Work a =
      Only-if (a.choice == codes "local") Only-return (restore_owned-Work a.applied _)

  pub restore_each-Work :
      (rs : List AppliedResolution) (r : Resolved) → Only Work (restore_each env e rs r)
  unfolding restore_each
  restore_each-Work [] r = Only-return
  restore_each-Work (a ∷ others) r =
      Only-bind (restore_resolution-Work a)
        (λ adoption. restore_each-Work others (adopt env e a r adoption))

module _ (env : Environment) (e : Engine) where
  adopt_resolutions-Work :
      (rs : List AppliedResolution) (r : Resolved) → Only Work (adopt_resolutions env e rs r)
  unfolding adopt_resolutions
  adopt_resolutions-Work [] r = Only-return
  adopt_resolutions-Work (a ∷ others) r = Only-bind (load_remote-Work env e) (λ remote.
      Only-bind (restore_each-Work env (with_specs e remote) (a ∷ others) _) (λ restored.
        Only-bind (Only-ask env _)
          (λ refreshed. Only-bind (Only-perform env _ _ (inr refl)) (λ _. Only-return))))

  apply_unless_held-Work :
      (r : Resolved) (checked : List Issue × List Text)
      → Only Work (apply_unless_held env e r checked)
  unfolding apply_unless_held
  apply_unless_held-Work r ([], held) =
      Only-bind (Only-perform env _ _ (inl refl))
        (λ _. Only-given (λ resolutions. adopt_resolutions-Work resolutions r))
  apply_unless_held-Work r (i ∷ issues, held) = Only-return

  preflight-Work :
      (batch : ResolutionBatch) (collected : Collected)
      → Only Work (preflight_resolution_batch env e batch collected)
  unfolding preflight_resolution_batch
  preflight-Work batch collected = by_prefixes _
    where
      by_prefixes :
          (prefixes : List Text)
          → Only Work (elim prefixes as (λ _. Step (List Issue × List Text)) [
            | [] ↦ return ([], [])
            | p ∷ ps ↦ (do
              records ← ask env env.list_conflicts
              return (preflight_records env e (p ∷ ps) batch.selections records))
          ])
      by_prefixes [] = Only-return
      by_prefixes (p ∷ ps) = Only-bind (Only-ask env _) (λ records. Only-return)

  resolve_batch-Work :
      (r : Resolved) (batch : Option ResolutionBatch) → Only Work (resolve_batch env e r batch)
  unfolding resolve_batch
  resolve_batch-Work r none = Only-return
  resolve_batch-Work r (some batch) =
      Only-if _
        (Only-bind (preflight-Work batch r.collected) (λ checked. apply_unless_held-Work r checked))
        Only-return

  pub resolve_pending-Work :
      (base : Snapshot) (remote : RemoteView) (collected : Collected)
      → Only Work (resolve_pending env e base remote collected)
  unfolding resolve_pending
  resolve_pending-Work base remote collected =
      Only-bind (Only-ask env _) (λ batch. resolve_batch-Work _ batch)

  pending_plan-Work : (m : Option Bool) → Only Work (pending_plan env e m)
  unfolding pending_plan
  pending_plan-Work none = Only-return
  pending_plan-Work (some _) = Only-ask env _

  manifest_in-Work : (a : Artifact) (s : Option Spec) → Only Work (manifest_in env e a s)
  unfolding manifest_in
  manifest_in-Work a none = Only-return
  manifest_in-Work a (some spec) =
      Only-if _ (Only-bind (Only-ask env _) (λ text. Only-return)) Only-return

  manifests-Work :
      (artifacts : Dict Text Artifact) (found : Dict Text Text)
      → Only Work (current_install_manifests env e artifacts found)
  unfolding current_install_manifests
  manifests-Work [] found = Only-return
  manifests-Work ((p, a) ∷ artifacts) found =
      Only-bind (manifest_in-Work a _)
        (λ manifest. manifests-Work artifacts (with_found env e manifest found))

  install_pass-Work : (m : Option Bool) (p : Pass) (l : Loop) → Only Work (install_pass env e m p l)
  unfolding install_pass
  install_pass-Work none p l = Only-return
  install_pass-Work (some _) p l =
      Only-bind (manifests-Work _ _)
        (λ manifests. Only-bind (Only-perform env _ _ (inl refl)) (λ _. Only-read))

  MayCall-Work : (x : Context) (actions : List Action) (c : Call) → MayCall env x actions c → Work c
  MayCall-Work x actions c (for_action a i h s t) = inl (by_touched (touched c) t)
    where
      by_touched :
          (o : Option Text)
          → o ≡ some a.repo_rel
          → (elim o as (λ _. Bool) [ some _ ↦ true | none ↦ prepares c ]) ≡ true
      by_touched none t = ground arith
      by_touched (some p) t = refl
  MayCall-Work x actions (publish p) (news_only n) = inr refl
  MayCall-Work x actions _ (news_only n) = ground arith

  pub apply_pass-Work : (p : Pass) → Only Work (apply_pass env e p)
  unfolding apply_pass
  apply_pass-Work p = Only-bind (Only-ask env _) (λ records.
      Only-bind (pending_plan-Work e.install_manager) (λ pending.
        Only-bind (announce_stage-Work env e _) (λ _.
          Only-bind
            (Only-weaken (λ c m. MayCall-Work _ p.actions c m)
              (apply_actions-MayCall env _ p.actions _))
            (λ l. Only-bind (Only-ask env _) (λ later. install_pass-Work e.install_manager p _)))))

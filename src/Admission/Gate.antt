-- ===== src/Admission/Gate.antt =====
-- Which hosts src/run_farm/reference.py lets a campaign run on.
use run_farm.Prelude.{◌≤◌, ◌≡◌, ◌≢◌, refl, ap, ◌∙◌, true, none, List, arith}
use run_farm.Config.{Config}
use run_farm.Registry.{RunRegistry, EventSink}
use run_farm.Driver.{Guard, admitted, rejected, RunFn, World, run_tasks, run_campaign}
use run_farm.Admission.{HostReport, ProbeAdmission, guard}

-- The probe ran, a GPU that is required is there, one that is there has the memory, and the results can leave.
pub record IsFit (a : ProbeAdmission) (r : HostReport) : Type 0 where
  pub probed : r.probe_ok ≡ true
  pub gpu : a.require_gpu ≡ true → r.has_gpu ≡ true
  pub memory : r.has_gpu ≡ true → a.min_mem ≤ r.free_mem
  pub ships : a.min_mbps ≤ r.outbound

IsFit-of_admitted : (a : ProbeAdmission) (r : HostReport) → guard a r ≡ admitted → IsFit a r
unfolding guard
IsFit-of_admitted a r e = record {
  probed = ground (arith, e);
  gpu = ground (arith, e);
  memory = ground (arith, e);
  ships = ground (arith, e);
}

guard-IsFit : (a : ProbeAdmission) (r : HostReport) → IsFit a r → guard a r ≡ admitted
unfolding guard
guard-IsFit a r f = ground (arith, f.probed, f.gpu, f.memory, f.ships)

module _ {S W E : Type 0} (registry : RunRegistry S W) (sink : EventSink S E)
    (run_fn : RunFn S) where
  -- On a fit host a campaign is its loop of tasks. On any other it ends with the refusal, before a task: the
  -- registry and the records are as they were.
  pub guarded_campaign :
      (a : ProbeAdmission) (r : HostReport) (cs : List Config) (w : World W E)
      → (IsFit a r
          → run_campaign registry sink run_fn (guard a r) cs w
            ≡ run_tasks registry sink run_fn cs w)
        × ((IsFit a r → ⊥)
            → (run_campaign registry sink run_fn (guard a r) cs w).1 ≡ w
              × (run_campaign registry sink run_fn (guard a r) cs w).0 ≢ none)
  unfolding run_campaign
  guarded_campaign a r cs w = (
    λ f.
        ap (λ (g : Guard). run_campaign registry sink run_fn g cs w) (guard-IsFit a r f)
        ∙ admitted_runs,
    λ unfit. by_guard (guard a r) (λ e. unfit (IsFit-of_admitted a r e)),
  )
    where
      admitted_runs :
          run_campaign registry sink run_fn admitted cs w ≡ run_tasks registry sink run_fn cs w
      admitted_runs = refl

      by_guard :
          (g : Guard)
          → g ≢ admitted
          → (run_campaign registry sink run_fn g cs w).1 ≡ w
            × (run_campaign registry sink run_fn g cs w).0 ≢ none
      by_guard admitted ne = absurd (ne refl)
      by_guard (rejected why) ne = (refl, λ e. cc)

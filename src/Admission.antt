-- ===== src/Admission.antt =====
-- src/run_farm/reference.py, ProbeAdmission: `guard` over the report of a probe.
--
-- Memory and bandwidth are whole numbers of any unit; the texts of the refusals are shortened.
pub mod Gate
use run_farm.Prelude.{ℕ, String, Bool, true, false, not, ◌&&◌, ltb, if◌then◌else◌}
use run_farm.Driver.{Guard, admitted, rejected}

pub record HostReport : Type 0 where
  pub has_gpu : Bool
  pub device_name : String
  pub free_mem : ℕ
  pub outbound : ℕ
  pub probe_ok : Bool

pub record ProbeAdmission : Type 0 where
  pub min_mem : ℕ
  pub min_mbps : ℕ
  pub require_gpu : Bool

unfoldable pub guard : ProbeAdmission → HostReport → Guard
guard a r =
    if not r.probe_ok
    then rejected "device probe failed"
    else if a.require_gpu && not r.has_gpu
    then rejected "no GPU on host"
    else if r.has_gpu && ltb r.free_mem a.min_mem
    then rejected "insufficient device memory"
    else if ltb r.outbound a.min_mbps
    then rejected "host cannot ship results"
    else admitted

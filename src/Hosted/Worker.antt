-- ===== src/Hosted/Worker.antt =====
-- src/run_farm/provider_exec.py: the steps on a rented host.
use Prim.Native.Nat.{min}
use Prim.Native.String.{len, slice, count}
use package.text.Mathlib.Text.{starts_with, find?}
use run_farm.Prelude.{
  ℕ, zero, suc, ◌+◌, ◌-◌, ◌*◌, String, Bool, true, false, not, ◌&&◌, ◌||◌, Option, none, some, List,
  [], ◌∷◌, lookup, is_some, string_eq, nat_beq, ltb, leb, concat, if◌then◌else◌,
}
use run_farm.Json.{object, items_of}
use run_farm.Config.{Config}
use run_farm.Fleet.{host_probe_failed, other, Try, gives, raises}
use run_farm.Fleet.Host.{truthy}
use run_farm.Hosted.{
  Cloud, Parsing, Settings, Result, reported, failed, ready_command, worker_command,
}

-- SSH_TRANSPORT_RC
abbrev pub ssh_transport_rc : ℕ
ssh_transport_rc = 255

-- _WORKER_PROBE
abbrev pub worker_probe : String
worker_probe = "pgrep -f 'run_farm[.]worker' >/dev/null && echo ALIVE || echo GONE"

-- RESULT_PREFIX
abbrev pub result_prefix : String
result_prefix = "__RESULT__ "

-- s[-k:]
unfoldable pub without_first : ℕ → String → String
without_first zero s = s
without_first (suc n) String.[] = ""
without_first (suc n) (String.◌∷◌ c s) = without_first n s

unfoldable pub last_chars : ℕ → String → String
last_chars k s = without_first (count s - k) s

abbrev pub on_death {ℓ} : {A : Type ℓ} → Option String → (String → A) → A → A
on_death (some why) stop go = stop why
on_death none stop go = go

module _ {P : Type 0} (cloud : Cloud P) (parsing : Parsing) (settings : Settings) where
  -- `_host_dead`: what cannot be read is not confirmed dead.
  abbrev pub confirmed : Try (Option String) → Option String
  confirmed (gives r) = truthy r
  confirmed (raises e) = none

  unfoldable pub host_dead : P → String → Option String × P
  host_dead p host = (confirmed (cloud.dead_reason p host).0, (cloud.dead_reason p host).1)

  -- The loop of `_wait_engine_ready`, with fuel.
  unfoldable pub ready_loop : ℕ → ℕ → String → P → Try (Unit {0}) × P
  ready_loop zero deadline host p = (raises (host_probe_failed "engine not ready"), p)
  ready_loop (suc fuel) deadline host p =
      if ltb (cloud.clock p) deadline
      then (let ((rc, out), p') = cloud.ssh p host (ready_command parsing settings) 30 in
          let again = ready_loop fuel deadline host (cloud.sleep p' 10) in
          if nat_beq rc 0 then (gives tt, p') else again)
      else (raises (host_probe_failed "engine not ready"), p)

  unfoldable pub wait_engine_ready : String → P → Try (Unit {0}) × P
  wait_engine_ready host p =
      ready_loop (settings.ready_timeout + 1) (cloud.clock p + settings.ready_timeout) host p

  -- The loop of `_worker_gone`, with fuel.
  unfoldable pub gone_loop : ℕ → ℕ → String → P → Bool × P
  gone_loop zero deadline host p = (false, p)
  gone_loop (suc fuel) deadline host p =
      if leb deadline (cloud.clock p)
      then (false, p)
      else (let ((rc, out), p') =
            cloud.ssh p host worker_probe (min 30 (deadline - cloud.clock p)) in
          let nap = min settings.reattach_backoff_s (deadline - cloud.clock p') in
          let again = gone_loop fuel deadline host (cloud.sleep p' nap) in
          if nat_beq rc 0 && is_some (find? out "GONE")
          then (true, p')
          else if nat_beq nap 0
          then (false, p')
          else again)

  unfoldable pub worker_gone : String → ℕ → P → Bool × P
  worker_gone host budget p = gone_loop (budget + 1) (cloud.clock p + budget) host p

  -- `if nap > 0: time.sleep(nap)`, the nap being cut to the deadline.
  abbrev pub back_off : ℕ → P → P
  back_off deadline p =
      let nap = min settings.reattach_backoff_s (deadline - cloud.clock p) in
      if nat_beq nap 0 then p else cloud.sleep p nap

  -- The texts that are put after what the command said, which `_run_config` reads.
  abbrev pub exhausted : ℕ → String → String
  exhausted tries out = concat (
      "run_timeout "
      ∷ parsing.digits settings.run_timeout
      ∷ "s exhausted across "
      ∷ parsing.digits tries
      ∷ " attempt(s); last: "
      ∷ last_chars 200 out
      ∷ [])

  abbrev pub on_corpse : String → String → String
  on_corpse out dead = concat (out ∷ "  [host confirmed dead: " ∷ dead ∷ "]" ∷ [])

  abbrev pub declined : String → String → String
  declined host out = concat (
      out ∷ "  [ssh transport died and a worker may still be running on " ∷ host
      ∷ "; declined to start a second one]" ∷ [])

  -- The loop of `_run_worker`, with the attempts that remain, those that were made, and the last output.
  unfoldable pub worker_loop : ℕ → ℕ → String → ℕ → String → String → P → (ℕ × String) × P
  worker_loop zero tries last deadline host cmd p = ((ssh_transport_rc, last), p)
  worker_loop (suc more) tries last deadline host cmd p =
      if leb deadline (cloud.clock p)
      then ((124, exhausted tries last), p)
      else (let ((rc, out), p') = cloud.ssh p host cmd (deadline - cloud.clock p) in
          if not (nat_beq rc ssh_transport_rc) || nat_beq more 0
          then ((rc, out), p')
          else (let (dead, p'') = host_dead p' host in
              on_death dead (λ why. ((rc, on_corpse out why), p''))
                (let (gone, q) =
                    worker_gone host
                      (min (settings.reattach_backoff_s * 3) (deadline - cloud.clock p'')) p'' in
                  let again =
                    worker_loop more (tries + 1) out deadline host cmd (back_off deadline q) in
                  if gone then again else ((rc, declined host out), q))))

  -- `_run_worker`
  unfoldable pub run_worker : String → String → P → (ℕ × String) × P
  run_worker host cmd p =
      worker_loop (1 + settings.reattach_attempts) 0 "no attempt ran"
        (cloud.clock p + settings.run_timeout) host cmd p

  -- The first line with the prefix.
  unfoldable pub result_line : List String → Option String
  result_line [] = none
  result_line (line ∷ lines) =
      if starts_with line result_prefix
      then some (slice line (len result_prefix) (len line))
      else result_line lines

  abbrev pub parsed : Config → Option String → Result
  parsed c none = failed c.run_name "rc"
  parsed c (some payload) = elim (parsing.loads payload) [
    | none ↦ failed c.run_name "malformed result line"
    | some v ↦ reported v
  ]

  -- `_run_config`
  unfoldable pub run_config : String → Config → P → Result × P
  run_config host c p =
      let ((rc, out), p') = run_worker host (worker_command parsing settings c) p in
      (parsed c (result_line (parsing.split_lines out)), p')

  -- `rec.get("error")`, which raises for a value that is no object.
  unfoldable pub has_error : Result → Try Bool
  has_error (failed run message) = gives true
  has_error (reported (object fs)) = gives (parsing.is_true (lookup "error" (items_of fs)))
  has_error (reported v) = raises (other "no attribute 'get'")

-- ===== src/Farm/Dispatch/Keys.antt =====
-- The search for the key of an unplanned record in `execute_fleet` of src/run_farm/farm.py.
use Prim.Native.String.{count}
use run_farm.Prelude.{
  ℕ, zero, suc, ◌+◌, ◌≤◌, ◌<◌, ◌≡◌, String, Bool, true, false, List, [], ◌∷◌, lookup, has,
  string_eq, suffixed, count-suffixed, arith, Bool-cases, inl, inr,
}
use run_farm.Config.{Config}
use run_farm.Farm.Dispatch.{Out, taken, fresh_key, key_fuel}

count-le-key_fuel :
    (cs : List Config) (out : Out) (key : String)
    → taken cs out key ≡ true
    → count key < key_fuel cs out
unfolding taken key_fuel has lookup
count-le-key_fuel [] [] key h = cc
count-le-key_fuel [] ((k, s) ∷ out) key h =
    ground (arith, string_eq.beq_iff k key, count-le-key_fuel [] out key)
count-le-key_fuel (c ∷ cs) out key h =
    ground (arith, string_eq.beq_iff c.rid key, count-le-key_fuel cs out key)

fresh_key-ends :
    (t : String → Bool) (bound fuel : ℕ) (key : String)
    → ((k : String) → t k ≡ true → count k < bound)
    → bound ≤ count key + fuel
    → t (fresh_key t fuel key) ≡ false
unfolding fresh_key
fresh_key-ends t bound zero key short h = elim (Bool-cases (t key)) [
  | inl now ↦ absurd (omega (arith, short key now))
  | inr free ↦ free
]
fresh_key-ends t bound (suc fuel) key short h = elim (Bool-cases (t key)) [
  | inl now ↦
      rw (now, fresh_key)
        (fresh_key-ends t bound fuel (suffixed key ".unplanned") short
          (omega (arith, count-suffixed key ".unplanned")))
  | inr free ↦ rw (free, fresh_key) free
]

-- The loop that looks for a free key ends within its fuel: the key it gives is no planned rid and
-- no key of the results so far.
pub fresh_key_free :
    (cs : List Config) (out : Out) (key : String)
    → taken cs out (fresh_key (taken cs out) (key_fuel cs out) key) ≡ false
fresh_key_free cs out key =
    fresh_key-ends (taken cs out) (key_fuel cs out) (key_fuel cs out) key (count-le-key_fuel cs out)
      (omega arith)

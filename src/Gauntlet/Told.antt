-- ===== src/Gauntlet/Told.antt =====
-- What the answer of RegistryMarkersIntended of src/run_farm/gauntlet.py says of the configs.
use run_farm.Prelude.{
  ℕ, zero, suc, ◌-◌, ◌≡◌, ◌≢◌, refl, sym, ◌∙◌, ◌==◌, arith, ◌↔◌, String, Bool, true, false, inl,
  inr, Option, none, some, List, [], ◌∷◌, string_eq, length, nat_beq, nat_beq_iff, take, All,
  Bool-cases,
}
use run_farm.Config.{Config}
use run_farm.Gauntlet.{Fallible, returns, throws, CheckResult, blocking}
use run_farm.Gauntlet.Completed.{
  Handle, Archive, Scan, found, stopped, handle, base_mismatch, and_found, scan, on_scan, on_base,
  mismatch_of, apart, registry_markers_intended,
}

-- What `_base_mismatch` is to find out: without a handle of its own, whatever the base and the output directory
-- resolve to is one path.
abbrev pub BaseAgrees :
    {P : Type 0} → Archive P → Option (Config → Handle) → String → P → Option String → Type 0
BaseAgrees archive (some f) out_dir p base = Unit {0}
BaseAgrees archive none out_dir p none = Unit {0}
BaseAgrees archive none out_dir p (some base) =
    (a b : String) → archive.resolve p base ≡ some a → archive.resolve p out_dir ≡ some b → a ≡ b

-- `a` and `b` are one path, if both are given.
abbrev Together : Option String → Option String → Type 0
Together x y = (a b : String) → x ≡ some a → y ≡ some b → a ≡ b

some_inj : {a b : String} → some a ≡ some b → a ≡ b
some_inj e = cc

positive_lem : (n : ℕ) → nat_beq n 0 ≡ false → n ≢ 0
positive_lem zero h = cc
positive_lem (suc n) h = λ e. cc

module _ {P : Type 0} (archive : Archive P) (handle_for : Option (Config → Handle))
    (out_dir : String) (p : P) where
  -- The registry says that the config is not complete.
  abbrev pub Fresh : Config → Type 0
  Fresh c = archive.is_complete p (handle archive handle_for out_dir c) ≡ returns false

  -- The registry says whether the config is complete, and does not raise.
  abbrev pub Answered : Config → Type 0
  Answered c =
      (b : Bool) × (archive.is_complete p (handle archive handle_for out_dir c) ≡ returns b)

  abbrev Says : List Config → Scan → Type 0
  Says cs (found []) = All Fresh cs × All Answered cs
  Says cs (found (h ∷ hs)) = (All Fresh cs → ⊥) × All Answered cs
  Says cs (stopped h e) = (All Fresh cs → ⊥) × (All Answered cs → ⊥)

  returns_apart : (a : Fallible Bool) → a ≡ returns true → a ≡ returns false → ⊥
  returns_apart a e f = cc

  throws_apart : (a : Fallible Bool) (x : String) (b : Bool) → a ≡ throws x → a ≡ returns b → ⊥
  throws_apart a x b e f = cc

  and_found-Says :
      (c : Config) (cs : List Config) (a : Fallible Bool) (s : Scan)
      → archive.is_complete p (handle archive handle_for out_dir c) ≡ a
      → Says cs s
      → Says
          (c ∷ cs)
          (and_found archive handle_for out_dir (handle archive handle_for out_dir c) a s)
  and_found-Says c cs (throws x) s e k =
      (λ h. throws_apart _ x false e h.0, λ h. throws_apart _ x h.0.0 e h.0.1)
  and_found-Says c cs (returns false) (found []) e k = ((e, k.0), ((false, e), k.1))
  and_found-Says c cs (returns false) (found (h ∷ hs)) e k = (λ f. k.0 f.1, ((false, e), k.1))
  and_found-Says c cs (returns false) (stopped h x) e k = (λ f. k.0 f.1, λ f. k.1 f.1)
  and_found-Says c cs (returns true) (found []) e k = (λ f. returns_apart _ e f.0, ((true, e), k.1))
  and_found-Says c cs (returns true) (found (h ∷ hs)) e k = (λ f. k.0 f.1, ((true, e), k.1))
  and_found-Says c cs (returns true) (stopped h x) e k = (λ f. k.0 f.1, λ f. k.1 f.1)

  scan-Says : (cs : List Config) → Says cs (scan archive handle_for out_dir cs p)
  unfolding scan
  scan-Says [] = (tt, tt)
  scan-Says (c ∷ cs) =
      and_found-Says c cs (archive.is_complete p (handle archive handle_for out_dir c))
        (scan archive handle_for out_dir cs p) refl (scan-Says cs)

  -- The two tests of an answer: it passes exactly if `A`, and stops no launch exactly if `B`.
  abbrev pub Tells : Type 0 → Type 0 → CheckResult → Type 0
  Tells A B r = ((r.passed ≡ true) ↔ A) × ((blocking r ≡ false) ↔ B)

  on_scan-Tells :
      (cs : List Config) (more : ℕ) (s : Scan)
      → Says cs s
      → Tells (All Fresh cs) (All Answered cs) (on_scan archive handle_for out_dir p more s)
  on_scan-Tells cs more (found []) k = ((λ _. k.0, λ _. refl), (λ _. k.1, λ _. refl))
  on_scan-Tells cs more (found (h ∷ hs)) k = ((λ e. cc, λ f. absurd (k.0 f)), (λ _. k.1, λ _. refl))
  on_scan-Tells cs more (stopped h x) k =
      ((λ e. cc, λ f. absurd (k.0 f)), (λ e. cc, λ f. absurd (k.1 f)))

  apart_iff :
      (base : String) (x y : Option String)
      → (apart archive handle_for out_dir base x y ≡ none) ↔ Together x y
  apart_iff base none y = (λ e a b f g. cc, λ h. refl)
  apart_iff base (some a) none = (λ e c d f g. cc, λ h. refl)
  apart_iff base (some a) (some b) = elim (Bool-cases (a == b)) [
    | inl same ↦
        rw same
          ((λ e c d f g. sym (some_inj f) ∙ (string_eq.beq_iff a b).0 same ∙ some_inj g, λ h. refl))
    | inr differs ↦ rw differs (
        (
          λ e. cc,
          λ h. absurd (ground (arith, differs, (string_eq.beq_iff a b).1 (h a b refl refl))),
        ))
  ]

  mismatch_iff :
      (f : Option (Config → Handle)) (base : Option String)
      → (mismatch_of archive handle_for out_dir p f base ≡ none)
        ↔ BaseAgrees archive f out_dir p base
  mismatch_iff (some f) base = (λ e. tt, λ h. refl)
  mismatch_iff none none = (λ e. tt, λ h. refl)
  mismatch_iff none (some base) =
      apart_iff base (archive.resolve p base) (archive.resolve p out_dir)

  base_mismatch_iff :
      (base_mismatch archive handle_for out_dir p ≡ none)
      ↔ BaseAgrees archive handle_for out_dir p archive.base
  unfolding base_mismatch
  base_mismatch_iff = mismatch_iff handle_for archive.base

  -- What lets the check ask the registry at all.
  abbrev pub Placed : ℕ → Type 0
  Placed limit = (limit ≢ 0) × BaseAgrees archive handle_for out_dir p archive.base

  on_base-Tells :
      (limit : ℕ) (cs : List Config) (o : Option String)
      → limit ≢ 0
      → base_mismatch archive handle_for out_dir p ≡ o
      → Tells
          (Placed limit × All Fresh (take limit cs))
          (Placed limit × All Answered (take limit cs))
          (on_base archive handle_for out_dir p o limit cs)
  on_base-Tells limit cs none n e =
      let (passes, lets) =
        on_scan-Tells (take limit cs) (length cs - limit)
          (scan archive handle_for out_dir (take limit cs) p) (scan-Says (take limit cs)) in
      let agrees = base_mismatch_iff.0 e in
      (
        (λ h. ((n, agrees), passes.0 h), λ h. passes.1 h.1),
        (λ h. ((n, agrees), lets.0 h), λ h. lets.1 h.1),
      )
  on_base-Tells limit cs (some base) n e =
      ((λ h. cc, λ h. absurd (differs h.0.1)), (λ h. cc, λ h. absurd (differs h.0.1)))
    where
      differs : BaseAgrees archive handle_for out_dir p archive.base → ⊥
      differs h = let none_found = base_mismatch_iff.1 h in cc

  -- The check passes exactly when the limit is positive, the registry calls each config up to the limit not complete,
  -- and the output directory is the registry's base: a handle is given, or the registry has no base, or the two
  -- do not resolve to different paths. It stops no launch exactly when the limit and the directory are so, and
  -- the registry answers for each of these configs without raising.
  pub registry_markers-Tells :
      (limit : ℕ) (cs : List Config)
      → Tells
          (Placed limit × All Fresh (take limit cs))
          (Placed limit × All Answered (take limit cs))
          (registry_markers_intended archive handle_for out_dir limit cs p)
  unfolding registry_markers_intended
  registry_markers-Tells limit cs = elim (Bool-cases (nat_beq limit 0)) [
    | inl zero_limit ↦ rw zero_limit (
        let e = (nat_beq_iff limit 0).0 zero_limit in
        ((λ h. cc, λ h. absurd (h.0.0 e)), (λ h. cc, λ h. absurd (h.0.0 e))))
    | inr positive ↦ rw positive (
        on_base-Tells limit cs (base_mismatch archive handle_for out_dir p)
          (positive_lem limit positive) refl)
  ]

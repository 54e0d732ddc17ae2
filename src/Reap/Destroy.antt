-- ===== src/Reap/Destroy.antt =====
-- src/run_farm/reap.py: `_classify`, `_destroy_with_retry` and the sweep over the targets.
use package.text.Mathlib.Text.{find?}
use run_farm.Prelude.{
  ℕ, zero, suc, ◌+◌, String, Bool, ◌||◌, Option, none, some, List, [], ◌∷◌, ◌++◌, any, is_some,
  nat_beq, if◌then◌else◌,
}

-- An instance of the listing: the raw fields that are read, numbers and texts.
pub data Raw : Type 0 where
  number : ℕ → Raw
  text : String → Raw

pub record Instance : Type 0 where
  pub id : String
  pub dph : Option ℕ
  pub raw : List (String × Raw)

-- What an exception of `destroy` shows: `.code` if it is an int, whether its class is one of
-- `_BUG_TYPES`, and its text.
pub record Failure : Type 0 where
  pub code : Option ℕ
  pub is_bug : Bool
  pub message : String

pub data Attempt : Type 0 where
  done : Attempt
  raised : Failure → Attempt

-- The provider, with a state of its own.
pub record Provider (P : Type 0) : Type 0 where
  pub list_instances : P → List Instance × P
  pub destroy : P → String → Attempt × P

-- `str.lower`, `float(text)` and `datetime.fromisoformat`, in seconds.
pub record Texts : Type 0 where
  pub lower : String → String
  pub float : String → Option ℕ
  pub from_iso : String → Option ℕ

pub data Fault : Type 0 where
  transient gone auth bug : Fault

abbrev pub contains_any : List String → String → Bool
contains_any needles s = any (λ (t : String). is_some (find? s t)) needles

abbrev pub gone_texts : List String
gone_texts = "404" ∷ "410" ∷ "not found" ∷ "notfound" ∷ "no_such" ∷ "does not exist" ∷ []

abbrev pub auth_texts : List String
auth_texts = "401" ∷ "403" ∷ "forbidden" ∷ "unauthor" ∷ []

abbrev pub classify_code : ℕ → Fault
classify_code code =
    if nat_beq code 404 || nat_beq code 410
    then gone
    else if nat_beq code 401 || nat_beq code 403
    then auth
    else transient

abbrev pub classify_text : String → Fault
classify_text s =
    if contains_any gone_texts s
    then gone
    else if contains_any auth_texts s
    then auth
    else transient

unfoldable pub classify : Texts → Failure → Fault
classify t e = elim e.code [
  | some code ↦ classify_code code
  | none ↦ if e.is_bug then bug else classify_text (t.lower e.message)
]

pub data Destroyed : Type 0 where
  destroyed already_gone failed : Destroyed

-- The answers that end the retries; `none` is a transient error.
unfoldable pub decisive : Texts → Attempt → Option Destroyed
decisive t done = some destroyed
decisive t (raised e) = elim (classify t e) [
  | gone ↦ some already_gone
  | auth ↦ some failed
  | bug ↦ some failed
  | transient ↦ none
]

abbrev pub decide : {P : Type 0} → P → Option Destroyed → Destroyed × P → Destroyed × P
decide p (some d) rest = (d, p)
decide p none rest = rest

-- The report of a sweep: the ids by how their destroy ended, and the price of those cleared.
pub record Swept : Type 0 where
  pub destroyed : List String
  pub gone : List String
  pub failed : List String
  pub reclaimed : ℕ

abbrev pub nothing_swept : Swept
nothing_swept = record { destroyed = []; gone = []; failed = []; reclaimed = 0 }

abbrev pub price : Instance → ℕ
price i = elim i.dph [ none ↦ 0 | some d ↦ d ]

unfoldable pub note : Swept → Instance → Destroyed → Swept
note s i destroyed = record s {
  destroyed = s.destroyed ++ i.id ∷ [];
  reclaimed = s.reclaimed + price i;
}
note s i already_gone = record s { gone = s.gone ++ i.id ∷ []; reclaimed = s.reclaimed + price i }
note s i failed = record s { failed = s.failed ++ i.id ∷ [] }

module _ {P : Type 0} (t : Texts) (provider : Provider P) where
  -- `for attempt in range(retries)`: `left` attempts remain, and a transient error at the last one
  -- fails. The backoff sleeps are left out.
  unfoldable pub destroy_with_retry : ℕ → P → String → Destroyed × P
  destroy_with_retry zero p iid = (failed, p)
  destroy_with_retry (suc left) p iid =
      let (attempt, p') = provider.destroy p iid in
      let rest = destroy_with_retry left p' iid in decide p' (decisive t attempt) rest

  -- `for i in targets`
  unfoldable pub destroy_all : ℕ → P → Swept → List Instance → Swept × P
  destroy_all retries p s [] = (s, p)
  destroy_all retries p s (i ∷ is) =
      let (status, p') = destroy_with_retry retries p i.id in
      destroy_all retries p' (note s i status) is

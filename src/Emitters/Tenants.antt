-- ===== src/Emitters/Tenants.antt =====
-- `TenantPool` of telemetry_engine/emitters/workload.py. A share of the traffic is a whole number of
-- millionths, and what a division of doubles gives is a parameter: a rounded share for each rank.
pub mod Sampling
use Prim.Native.Nat as Nat
use Prim.Native.String as Texts
use llm_telemetry_engine.Base.{
  ℕ, zero, suc, ◌+◌, ◌-◌, ◌/◌, ◌%◌, max, min, ltb, leb, ◌==◌, ◌&&◌, if◌then◌else◌, String, Option,
  none, some, List, [], ◌∷◌, map, length, get_elem?, Dict, Result, ok, err, raise_if, value_error,
  index_error, ◌>>=◌, ◌>>◌,
}

abbrev pub million : ℕ
million = 1000000

-- One of the ten digits.
abbrev digit : ℕ → String
digit n = Texts.slice "0123456789" n (suc n)

-- The digits of the rest of a number behind the last `width` ones, on fuel.
abbrev digits : ℕ → ℕ → ℕ → String
digits zero width n = ""
digits (suc fuel) width n =
    let rest = digits fuel (width - 1) (n / 10) in
    if (width == 0) && (n == 0) then "" else Texts.◌++◌ rest (digit (n % 10))

-- `f"tenant-{i:04d}"`. A number has no more digits than it counts, and four.
unfoldable pub tenant_name : ℕ → String
tenant_name i = Texts.◌++◌ "tenant-" (digits (i + 4) 4 i)

-- `range(n)`, from a first number
abbrev pub range : ℕ → ℕ → List ℕ
range first zero = []
range first (suc n) = first ∷ range (suc first) n

-- `TENANT_TIERS`
abbrev pub tenant_tiers : List String
tenant_tiers = "free" ∷ "pro" ∷ "enterprise" ∷ []

-- The tier of a rank.
unfoldable pub tier_of : ℕ → ℕ → String
tier_of count rank =
    if ltb rank (max 1 (count / 20))
    then "enterprise"
    else if ltb rank (max 2 (count / 4))
    then "pro"
    else "free"

-- The sums of a list's beginnings, from a first sum.
abbrev pub running : ℕ → List ℕ → List ℕ
running acc [] = []
running acc (w ∷ ws) = (acc + w) ∷ running (acc + w) ws

-- `values[-1] = v`
abbrev pub set_last : ℕ → List ℕ → List ℕ
set_last v [] = []
set_last v (x ∷ []) = v ∷ []
set_last v (x ∷ y ∷ xs) = x ∷ set_last v (y ∷ xs)

pub record TenantPool : Type 0 where
  pub count : ℕ
  pub ids : List String
  pub tiers : Dict String
  pub cumulative : List ℕ

-- `TenantPool.__post_init__`, where `share` is `w / total` at each rank.
unfoldable pub new_pool : ℕ → ℕ → (ℕ → ℕ) → Result TenantPool
unfolding tier_of
new_pool count alpha share =
    raise_if (ltb count 1) value_error
    >> (raise_if (alpha == 0) value_error
        >> ok (record {
          count = count;
          ids = map tenant_name (range 0 count);
          tiers = map (λ (rank : ℕ). (tenant_name rank, tier_of count rank)) (range 0 count);
          cumulative = set_last million (running 0 (map share (range 0 count)));
        }))

-- What `bisect.bisect_right` compares with, which is there for every index below the length.
abbrev pub at : List ℕ → ℕ → ℕ
at [] i = 0
at (x ∷ xs) zero = x
at (x ∷ xs) (suc i) = at xs i

-- The loop of `bisect.bisect_right`, on fuel.
abbrev pub bisect : ℕ → List ℕ → ℕ → ℕ → ℕ → ℕ
bisect zero values x lo hi = lo
bisect (suc fuel) values x lo hi =
    let mid : ℕ = (lo + hi) / 2 in
    let left : ℕ = bisect fuel values x lo mid in
    let right : ℕ = bisect fuel values x (suc mid) hi in
    if ltb lo hi then (if ltb x (at values mid) then left else right) else lo

-- `bisect_right(values, x)`. The search space shrinks in each round, by one at least.
unfoldable pub bisect_right : List ℕ → ℕ → ℕ
bisect_right values x = bisect (length values) values x 0 (length values)

abbrev found : {A : Type 0} → Option A → Result A
found none = err index_error
found (some a) = ok a

-- `TenantPool.sample`, of a draw of `random()`.
unfoldable pub sample : TenantPool → ℕ → Result String
unfolding bisect_right
sample pool draw = found (get_elem? pool.ids (bisect_right pool.cumulative draw))

-- `TenantPool.share_of_top`
unfoldable pub share_of_top : TenantPool → ℕ → Result ℕ
share_of_top pool n =
    if n == 0 then ok 0 else found (get_elem? pool.cumulative (min n pool.count - 1))

-- ===== src/Cardinality/Bound.antt =====
-- What the allowlist of telemetry_engine/cardinality/guard.py bounds: the number of keys that a
-- bucket of the rollup can have.
use mathlib.Core.List.{
  Mem, Nodup, Subset, mem-cons_self, mem-cons_of_mem, mem-append_left, mem-append_right,
  mem-map_of_mem, not-mem-nil,
}
use mathlib.Core.List.Nodup as Nodups
use mathlib.Core.List.Subperm as Subperms
use mathlib.Core.List as Lists
use mathlib.Core.List.Memᴰ as Memᴰs
use mathlib.Core.List.{Memᴰ}
use mathlib.Core.Logic.{∥∥₁_map}
use native.Mathlib.Nat.{mul_comm, mul_left_comm, mul-le-mul}
use native.Mathlib.Bridge.{from_ℕ, from_le}
use llm_telemetry_engine.Base.{
  ℕ, suc, ◌*◌, ◌≤◌, ◌≡◌, refl, sym, ap, ◌∙◌, Bool, true, false, ◌&&◌, ◌||◌, List, [], ◌∷◌, ◌++◌,
  map, String, length, length-map, length-append, All, arith, str_eq, Bool-cases, inl, inr, eq_iff,
}
use llm_telemetry_engine.Cardinality.Registry.{
  Dimension, Registry, max_distinct, product_from, max_rows_per_bucket,
}
use llm_telemetry_engine.Cardinality.Guard.{
  Allowlist, has, allowlisted, guarded, key_columns, rewrite_columns, rollup_key,
}

module _ {ℓ} {A : Type ℓ} where
  from_ℕ-length : (xs : List A) → from_ℕ (Lists.length xs) ≡ length xs
  from_ℕ-length [] = refl
  from_ℕ-length (x ∷ xs) = ap suc (from_ℕ-length xs)

  -- Distinct elements of a list are no more than it has.
  pub length-le_of_Subset : (xs ys : List A) → Nodup xs → Subset xs ys → length xs ≤ length ys
  length-le_of_Subset xs ys distinct sub =
      let le : from_ℕ (Lists.length xs) ≤ from_ℕ (Lists.length ys) =
        from_le (Subperms.length-le (Nodups.subperm distinct sub)) in
      omega (arith, le, from_ℕ-length xs, from_ℕ-length ys)

-- The keys that begin with an element of the first list.
extend : List String → List (List String) → List (List String)
extend [] rest = []
extend (v ∷ vs) rest = map (λ k. v ∷ k) rest ++ extend vs rest

length-extend :
    (vs : List String) (rest : List (List String))
    → length (extend vs rest) ≡ length vs * length rest
unfolding extend
length-extend [] rest = omega arith
length-extend (v ∷ vs) rest =
    let step = length-append (map (λ k. v ∷ k) rest) (extend vs rest) in
    let mapped = length-map rest (λ k. v ∷ k) in
    let rec = length-extend vs rest in omega (arith, step, mapped, rec)

Mem-extend :
    (v : String) (k : List String) (vs : List String) (rest : List (List String))
    → Memᴰ v vs
    → Memᴰ k rest
    → Memᴰ (v ∷ k) (extend vs rest)
unfolding extend
Mem-extend v k [] rest h m = absurd (Memᴰs.not-nil h)
Mem-extend v k (x ∷ vs) rest (Memᴰ.head e) m =
    Memᴰs.append_left (extend vs rest)
      (Memᴰs.cast (ap (λ (y : String). y ∷ k) e) (Memᴰs.map (λ l. x ∷ l) m))
Mem-extend v k (x ∷ vs) rest (Memᴰ.tail h) m =
    Memᴰs.append_right (map (λ l. x ∷ l) rest) (Mem-extend v k vs rest h m)

-- What a row can be rewritten to.
values : Allowlist → Dimension → List String
values table d = "__none__" ∷ "__other__" ∷ allowlisted table d.name

all_keys : Allowlist → List Dimension → List (List String)
all_keys table [] = [] ∷ []
all_keys table (d ∷ ds) = extend (values table d) (all_keys table ds)

rest_of_or : (a b c : Bool) → ((a && b) || c) ≡ true → b ≡ false → c ≡ true
rest_of_or true false c h e = h
rest_of_or false b c h e = h
rest_of_or true true c h e = cc

right_of_or : (a b c : Bool) → ((a && b) || c) ≡ true → a ≡ false → c ≡ true
right_of_or false b c h e = h
right_of_or true b c h e = cc

pub has-Mem :
    (table : Allowlist) (n v : String) → has table n v ≡ true → Memᴰ v (allowlisted table n)
unfolding allowlisted
has-Mem [] n v h = cc
has-Mem ((d, x) ∷ table) n v h = elim (Bool-cases (str_eq d n)) [
  | inr other ↦
      rw other (has-Mem table n v (right_of_or (str_eq d n) (str_eq x v) (has table n v) h other))
  | inl same ↦ elim (Bool-cases (str_eq x v)) [
    | inl e ↦ rw same (Memᴰ.head (sym ((eq_iff x v).0 e)))
    | inr ne ↦
        rw same (
          Memᴰ.tail (has-Mem table n v (rest_of_or (str_eq d n) (str_eq x v) (has table n v) h ne)))
  ]
]

guarded-Mem :
    (table : Allowlist) (d : Dimension) (v : String)
    → Memᴰ (guarded table d.name v) (values table d)
unfolding guarded values
guarded-Mem table d v = elim (Bool-cases (str_eq v "")) [
  | inl e ↦ rw e (Memᴰ.head refl)
  | inr ne ↦ elim (Bool-cases (has table d.name v)) [
    | inl h ↦ rw ne (rw h (Memᴰ.tail (Memᴰ.tail (has-Mem table d.name v h))))
    | inr h ↦ rw ne (rw h (Memᴰ.tail (Memᴰ.head refl)))
  ]
]

-- The columns that the dimensions are named after, in their order.
abbrev pub names : List Dimension → List String
names ds = map (λ (d : Dimension). d.name) ds

rewrite_columns-Mem :
    (table : Allowlist) (ds : List Dimension) (row : String → String)
    → Memᴰ (rewrite_columns table (names ds) row) (all_keys table ds)
unfolding rewrite_columns all_keys
rewrite_columns-Mem table [] row = Memᴰ.head refl
rewrite_columns-Mem table (d ∷ ds) row =
    Mem-extend (guarded table d.name (row d.name)) (rewrite_columns table (names ds) row)
      (values table d) (all_keys table ds) (guarded-Mem table d (row d.name))
      (rewrite_columns-Mem table ds row)

rollup_key-Mem :
    (table : Allowlist) (ds : List Dimension) (row : String → String)
    → names ds ≡ key_columns
    → Memᴰ (rollup_key table row) (all_keys table ds)
unfolding rollup_key
rollup_key-Mem table ds row named =
    Memᴰs.cast (sym (ap (λ (cs : List String). rewrite_columns table cs row) named))
      (rewrite_columns-Mem table ds row)

-- Every dimension has at most its budget of allowlisted values.
abbrev pub IsWithin : Allowlist → List Dimension → Type 0
IsWithin table ds = All (λ (d : Dimension). length (allowlisted table d.name) ≤ d.budget) ds

product_from-le :
    (table : Allowlist) (ds : List Dimension) (total n : ℕ)
    → IsWithin table ds
    → n ≤ total
    → length (all_keys table ds) * n ≤ product_from total ds
unfolding all_keys product_from max_distinct values
product_from-le table [] total n w h = omega (arith, h)
product_from-le table (d ∷ ds) total n w h =
    let L = length (values table d) in
    let K = length (all_keys table ds) in
    let larger =
      mul-le-mul {n₁ = n} {m₁ = L} {n₂ = total} {m₂ = max_distinct d} h (omega (arith, w.0)) in
    let rec = product_from-le table ds (total * max_distinct d) (n * L) w.1 larger in
    let size : length (all_keys table (d ∷ ds)) * n ≡ K * (n * L) =
      ap (λ (m : ℕ). m * n) (length-extend (values table d) (all_keys table ds))
      ∙ mul_comm (L * K) n
      ∙ ap (λ (m : ℕ). n * m) (mul_comm L K)
      ∙ mul_left_comm n K L in
    omega (arith, rec, size)

all_images :
    (table : Allowlist) (ds : List Dimension) (rows : List (String → String))
    → names ds ≡ key_columns
    → (k : List String) → Memᴰ k (map (rollup_key table) rows)
    → Memᴰ k (all_keys table ds)
all_images table ds [] named k m = absurd (Memᴰs.not-nil m)
all_images table ds (row ∷ rows) named k (Memᴰ.head e) =
    Memᴰs.cast e (rollup_key-Mem table ds row named)
all_images table ds (row ∷ rows) named k (Memᴰ.tail m) = all_images table ds rows named k m

-- Let the registry name the seven columns of the rollup, in their order, and let every dimension have at most its budget of allowlisted values. Then rows with pairwise different keys are at most as many as `max_rows_per_bucket` says, whatever values they hold.
pub rollup_key-bound :
    (table : Allowlist) (reg : Registry) (rows : List (String → String))
    → names reg.dimensions ≡ key_columns
    → IsWithin table reg.dimensions
    → Nodup (map (rollup_key table) rows)
    → length rows ≤ max_rows_per_bucket reg
unfolding max_rows_per_bucket
rollup_key-bound table reg rows named w distinct =
    let ds = reg.dimensions in
    let le =
      length-le_of_Subset (map (rollup_key table) rows) (all_keys table ds) distinct
        (λ k m. ∥∥₁_map {B = Memᴰ k (all_keys table ds)} m (all_images table ds rows named k)) in
    let bound = product_from-le table ds 1 1 w (omega arith) in
    omega (arith, le, bound, length-map rows (rollup_key table))

-- ===== src/Emitters/Tenants/Sampling.antt =====
-- The draws from `TenantPool` of telemetry_engine/emitters/workload.py.
use llm_telemetry_engine.Base.{
  ℕ, zero, suc, ◌+◌, ◌-◌, ◌/◌, ◌≤◌, ◌<◌, ◌≡◌, ◌≢◌, refl, sym, ap, ◌∙◌, arith, ltb, ltb→lt,
  le_of_ltb, le→geb, not_zero, true, String, Option, some, List, [], ◌∷◌, map, length, length-map,
  get_elem?, lookup, str_eq, eq_iff, ok, if-elim,
}
use llm_telemetry_engine.Emitters.Tenants.{
  TenantPool, new_pool, tier_of, tenant_name, million, range, running, set_last, at, bisect,
  bisect_right, sample,
}

-- The index whose value is the first above the draw in a list that rises.
abbrev IsCut : List ℕ → ℕ → ℕ → Type 0
IsCut values x i = (at (0 ∷ values) i ≤ x) × (x < at values i)

ne_at : (values : List ℕ) (x i j : ℕ) → at values i ≤ x → x < at values j → i ≢ j
ne_at values x i j h k e = omega (arith, h, k, ap (λ (n : ℕ). at values n) e)

meet :
    (values : List ℕ) (x last lo hi : ℕ)
    → at (0 ∷ values) lo ≤ x
    → (hi ≤ last → x < at values hi)
    → lo ≤ last
    → lo ≡ hi
    → IsCut values x lo × (lo ≤ last)
meet values x last lo hi low high in_range e =
    let above : x < at values hi = high (omega (arith, e, in_range)) in
    ((low, omega (arith, above, ap (λ (n : ℕ). at values n) e)), in_range)

-- The search comes to the cut, and not behind the last index, whose value is above the draw.
bisect-IsCut :
    (fuel : ℕ) (values : List ℕ) (x last lo hi : ℕ)
    → x < at values last
    → at (0 ∷ values) lo ≤ x
    → (hi ≤ last → x < at values hi)
    → lo ≤ last
    → lo ≤ hi
    → hi ≤ suc last
    → hi ≤ lo + fuel
    → IsCut values x (bisect fuel values x lo hi) × (bisect fuel values x lo hi ≤ last)
bisect-IsCut zero values x last lo hi top low high in_range order end enough =
    meet values x last lo hi low high in_range (omega (arith, order, enough))
bisect-IsCut (suc fuel) values x last lo hi top low high in_range order end enough =
    let mid : ℕ = (lo + hi) / 2 in
    if-elim (λ (i : ℕ). IsCut values x i × (i ≤ last)) (ltb lo hi)
      (λ open_range.
        let less : lo < hi = ltb→lt lo hi open_range in
        if-elim (λ (i : ℕ). IsCut values x i × (i ≤ last)) (ltb x (at values mid))
          (λ left.
            bisect-IsCut fuel values x last lo mid top low (λ h. ltb→lt x (at values mid) left)
              in_range (omega (arith, less)) (omega (arith, less)) (omega (arith, less)))
          (λ right.
            let below : at values mid ≤ x = le_of_ltb x (at values mid) right in
            bisect-IsCut fuel values x last (suc mid) hi top below high
              (omega (arith, less, end, ne_at values x mid last below top)) (omega (arith, less))
              end (omega (arith, less))))
      (λ closed.
        meet values x last lo hi low high in_range (omega (arith, order, le_of_ltb lo hi closed)))

length-range : (first n : ℕ) → length (range first n) ≡ n
length-range first zero = refl
length-range first (suc n) = ap suc (length-range (suc first) n)

length-running : (acc : ℕ) (ws : List ℕ) → length (running acc ws) ≡ length ws
length-running acc [] = refl
length-running acc (w ∷ ws) = ap suc (length-running (acc + w) ws)

length-set_last : (v : ℕ) (xs : List ℕ) → length (set_last v xs) ≡ length xs
length-set_last v [] = refl
length-set_last v (x ∷ []) = refl
length-set_last v (x ∷ y ∷ xs) = ap suc (length-set_last v (y ∷ xs))

at-set_last : (v : ℕ) (xs : List ℕ) (last : ℕ) → length xs ≡ suc last → at (set_last v xs) last ≡ v
at-set_last v [] last h = omega (arith, h)
at-set_last v (x ∷ []) zero h = refl
at-set_last v (x ∷ []) (suc last) h = omega (arith, h)
at-set_last v (x ∷ y ∷ xs) zero h = omega (arith, h)
at-set_last v (x ∷ y ∷ xs) (suc last) h = at-set_last v (y ∷ xs) last (omega (arith, h))

get_elem?-range :
    {A : Type 0} (f : ℕ → A) (first n i : ℕ)
    → i < n
    → get_elem? (map f (range first n)) i ≡ some (f (first + i))
get_elem?-range f first zero i h = absurd (omega (arith, h))
get_elem?-range f first (suc n) zero h = ap (λ (k : ℕ). some (f k)) (omega arith)
get_elem?-range f first (suc n) (suc i) h =
    get_elem?-range f (suc first) n i (omega (arith, h)) ∙ ap (λ (k : ℕ). some (f k)) (omega arith)

-- The pool that is made, with its cumulative shares.
abbrev pub shares : ℕ → (ℕ → ℕ) → List ℕ
shares count share = running 0 (map share (range 0 count))

abbrev pub pool_of : ℕ → (ℕ → ℕ) → TenantPool
pool_of count share = record {
  count = count;
  ids = map tenant_name (range 0 count);
  tiers = map (λ (rank : ℕ). (tenant_name rank, tier_of count rank)) (range 0 count);
  cumulative = set_last million (shares count share);
}

new_pool_eq :
    (count alpha : ℕ) (share : ℕ → ℕ)
    → 0 < count
    → 0 < alpha
    → new_pool count alpha share ≡ ok (pool_of count share)
unfolding new_pool
new_pool_eq count alpha share some_count some_alpha =
    rw (le→geb 1 count some_count, not_zero alpha some_alpha) refl

-- With a tenant and a positive alpha, a pool is made, whatever the divisions are rounded to. Every
-- draw below one gives a tenant of the pool: the one whose interval of the cumulative shares, from the
-- one before it, or from 0, has the draw.
pub sample-IsCut :
    (count alpha draw : ℕ) (share : ℕ → ℕ)
    → 0 < count
    → 0 < alpha
    → draw < million
    → (pool : TenantPool) × (new_pool count alpha share ≡ ok pool)
      × (i : ℕ) × (i < count)
      × (sample pool draw ≡ ok (tenant_name i))
      × (at (0 ∷ pool.cumulative) i ≤ draw)
      × (draw < at pool.cumulative i)
unfolding new_pool sample bisect_right
sample-IsCut count alpha draw share some_count some_alpha small =
    let sums : List ℕ = shares count share in
    let values : List ℕ = set_last million sums in
    let size : length sums ≡ count =
      length-running 0 (map share (range 0 count))
      ∙ length-map (range 0 count) share
      ∙ length-range 0 count in
    let whole : length values ≡ count = length-set_last million sums ∙ size in
    let top : at values (count - 1) ≡ million =
      at-set_last million sums (count - 1) (omega (arith, size, some_count)) in
    let n : ℕ = length values in
    let cut =
      bisect-IsCut n values draw (count - 1) 0 n (omega (arith, top, small)) (omega arith)
        (λ h. omega (arith, h, whole, some_count)) (omega arith) (omega arith)
        (omega (arith, whole)) (omega arith) in
    let i : ℕ = bisect_right values draw in
    (
      pool_of count share,
      new_pool_eq count alpha share some_count some_alpha,
      i,
      omega (arith, cut.1, some_count),
      rw (get_elem?-range tenant_name 0 count i (omega (arith, cut.1, some_count)))
          (ap (λ (k : ℕ). ok (tenant_name k)) (omega arith)),
      cut.0.0,
      cut.0.1,
    )

-- Every key of a range of keys is found.
lookup-range :
    (f g : ℕ → String) (first n i : ℕ) (key : String)
    → i < n
    → key ≡ f (first + i)
    → (v : String) × (lookup (map (λ (rank : ℕ). (f rank, g rank)) (range first n)) key ≡ some v)
lookup-range f g first zero i key h e = absurd (omega (arith, h))
lookup-range f g first (suc n) zero key h e =
    let same : str_eq (f first) key ≡ true =
      (eq_iff (f first) key).1 (sym (e ∙ ap f (omega arith))) in
    rw same (g first, refl)
lookup-range f g first (suc n) (suc i) key h e =
    if-elim (λ (o : Option String). (v : String) × (o ≡ some v)) (str_eq (f first) key)
      (λ here. (g first, refl))
      (λ there. lookup-range f g (suc first) n i key (omega (arith, h)) (e ∙ ap f (omega arith)))

-- In a pool that was made, every draw below one gives a tenant, and the tenant has a tier.
pub sample-HasTier :
    (count alpha draw : ℕ) (share : ℕ → ℕ) (pool : TenantPool)
    → 0 < count
    → 0 < alpha
    → new_pool count alpha share ≡ ok pool
    → draw < million
    → (id tier : String) × (sample pool draw ≡ ok id) × (lookup pool.tiers id ≡ some tier)
unfolding new_pool
sample-HasTier count alpha draw share pool some_count some_alpha made small =
    let (built, made', i, bound, drawn, low, high) =
      sample-IsCut count alpha draw share some_count some_alpha small in
    let same : pool_of count share ≡ pool =
      cc (made, new_pool_eq count alpha share some_count some_alpha) in
    let same' : built ≡ pool = cc (made, made') in
    let tier =
      lookup-range tenant_name (λ (rank : ℕ). tier_of count rank) 0 count i (tenant_name i) bound
        (ap tenant_name (omega arith)) in
    (tenant_name i, tier.0, rw (sym same') drawn, rw (sym same) tier.1)

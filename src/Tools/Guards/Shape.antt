-- ===== src/Tools/Guards/Shape.antt =====
-- Which names scripts/find_inert_guards.py takes for guards, said by the parts of the names.
use mathlib.Core.List.{Memᴰ}
use llm_telemetry_engine.Base.{
  ◌≡◌, ◌≢◌, refl, sym, ap, ◌∙◌, ◌⊎◌, inl, inr, String, Bool, true, false, ◌||◌, List, [], ◌∷◌, ◌++◌,
  ◌==◌, ==_iff, All, Bool-cases, ◌↔◌,
}
use llm_telemetry_engine.Base.Text.{Text, codes, strip_prefix-append}
use llm_telemetry_engine.Tools.Guards.{
  Definition, Function, starts_with, occurs, any, is_guard_shaped, guard_prefixes, guard_substrings,
  definitions, is_test,
}

-- The text begins with the word.
abbrev pub BeginsWith : String → Text → Type 0
BeginsWith word text = (rest : Text) × (text ≡ codes word ++ rest)

-- The word stands somewhere in the text.
abbrev pub Holds : String → Text → Type 0
Holds word text = (before : Text) × (after : Text) × (text ≡ before ++ (codes word ++ after))

-- The names, in lower case, that announce a guard.
abbrev pub IsGuard : Text → Type 0
IsGuard lowered =
    ((word : String) × Memᴰ word (
        "verify" ∷ "validate" ∷ "check" ∷ "assert" ∷ "ensure" ∷ "require" ∷ "guard" ∷ "_verify"
        ∷ "_validate" ∷ "_check" ∷ "_assert" ∷ "_ensure" ∷ "_require" ∷ [])
      × BeginsWith word lowered)
    ⊎ ((word : String) × Memᴰ word ("fingerprint" ∷ "sanity" ∷ "invariant" ∷ "consistency" ∷ [])
        × Holds word lowered)

right_of_or : (a b : Bool) → (a || b) ≡ true → (a ≡ true) ⊎ (b ≡ true)
right_of_or true b h = inl refl
right_of_or false b h = inr h

or_true : (b : Bool) → (b || true) ≡ true
or_true true = refl
or_true false = refl

prefix_split : (p text : Text) → starts_with p text ≡ true → (rest : Text) × (text ≡ p ++ rest)
prefix_split [] text h = (text, refl)
prefix_split (c ∷ p) [] h = cc h
prefix_split (c ∷ p) (d ∷ text) h = elim (Bool-cases (c == d)) [
  | inr other ↦ let never = rw other at h in cc never
  | inl same ↦
      let (rest, e) = prefix_split p text (rw same at h) in
      let first = (==_iff c d).0 same in
      (rest, ap (λ (x : _). x ∷ text) (sym first) ∙ ap (λ (t : Text). c ∷ t) e)
]

prefix_joined : (p rest : Text) → starts_with p (p ++ rest) ≡ true
prefix_joined p rest = rw (strip_prefix-append p rest) refl

occurs_split :
    (p text : Text)
    → occurs p text ≡ true
    → (before : Text) × (after : Text) × (text ≡ before ++ (p ++ after))
occurs_split [] [] h = ([], [], refl)
occurs_split (c ∷ p) [] h = cc h
occurs_split p (d ∷ text) h = elim (right_of_or (starts_with p (d ∷ text)) (occurs p text) h) [
  | inl here ↦ let (after, e) = prefix_split p (d ∷ text) here in ([], after, e)
  | inr later ↦
      let (before, after, e) = occurs_split p text later in
      (d ∷ before, after, ap (λ (t : Text). d ∷ t) e)
]

occurs_here : (p after : Text) → occurs p (p ++ after) ≡ true
occurs_here [] [] = refl
occurs_here [] (c ∷ after) = refl
occurs_here (c ∷ p) after = rw (prefix_joined (c ∷ p) after) refl

occurs_joined : (p before after : Text) → occurs p (before ++ (p ++ after)) ≡ true
occurs_joined p [] after = occurs_here p after
occurs_joined p (c ∷ before) after =
    rw (occurs_joined p before after) (or_true (starts_with p (c ∷ (before ++ (p ++ after)))))

module _ {A : Type 0} (p : A → Bool) where
  any_found : (xs : List A) → any p xs ≡ true → (x : A) × Memᴰ x xs × (p x ≡ true)
  any_found [] h = cc h
  any_found (x ∷ xs) h = elim (right_of_or (p x) (any p xs) h) [
    | inl here ↦ (x, Memᴰ.head refl, here)
    | inr later ↦ let (y, there, holds) = any_found xs later in (y, Memᴰ.tail there, holds)
  ]

  found_any : (xs : List A) (x : A) → Memᴰ x xs → p x ≡ true → any p xs ≡ true
  found_any [] x there h = elim there [ ]
  found_any (y ∷ xs) x (Memᴰ.head e) h = let holds : p y ≡ true = ap p (sym e) ∙ h in rw holds refl
  found_any (y ∷ xs) x (Memᴰ.tail there) h = rw (found_any xs x there h) (or_true (p y))

is_guard_shaped-IsGuard : (lowered : Text) → is_guard_shaped lowered ≡ true → IsGuard lowered
unfolding is_guard_shaped guard_prefixes guard_substrings
is_guard_shaped-IsGuard lowered h = elim (right_of_or _ _ h) [
  | inl starts ↦
      let (word, there, begins) = any_found (λ w. starts_with (codes w) lowered) _ starts in
      inl (word, there, prefix_split (codes word) lowered begins)
  | inr within ↦
      let (word, there, holds) = any_found (λ w. occurs (codes w) lowered) _ within in
      inr (word, there, occurs_split (codes word) lowered holds)
]

IsGuard-is_guard_shaped : (lowered : Text) → IsGuard lowered → is_guard_shaped lowered ≡ true
unfolding is_guard_shaped guard_prefixes guard_substrings
IsGuard-is_guard_shaped lowered (inl (word, there, (rest, e))) =
    let begins : starts_with (codes word) lowered ≡ true =
      ap (starts_with (codes word)) e ∙ prefix_joined (codes word) rest in
    rw (found_any (λ w. starts_with (codes w) lowered) guard_prefixes word there begins) refl
IsGuard-is_guard_shaped lowered (inr (word, there, (before, after, e))) =
    let holds : occurs (codes word) lowered ≡ true =
      ap (occurs (codes word)) e ∙ occurs_joined (codes word) before after in
    rw (found_any (λ w. occurs (codes w) lowered) guard_substrings word there holds)
      (or_true (any (λ w. starts_with (codes w) lowered) guard_prefixes))

-- What holds of the functions that `definitions` keeps holds of those that announce a guard.
pub definitions-All_iff :
    (P : Definition → Type 0) (found : List Function)
    → All P (definitions found)
      ↔ All (λ (f : Function). (IsGuard f.lowered → ⊥) ⊎ P f.definition) found
unfolding definitions
definitions-All_iff P [] = ((λ h. tt), (λ h. tt))
definitions-All_iff P (f ∷ found) =
    let (to, from) = definitions-All_iff P found in
    elim (Bool-cases (is_guard_shaped f.lowered)) [
      | inl shaped ↦ rw shaped (
        (λ h. (inr h.0, to h.1)),
        λ h. elim h.0 [
          | inl unnamed ↦ absurd (unnamed (is_guard_shaped-IsGuard f.lowered shaped))
          | inr holds ↦ (holds, from h.1)
        ],
      )
      | inr plain ↦ rw plain (
        (λ h. (
          inl (λ guard. let shaped = IsGuard-is_guard_shaped f.lowered guard in cc (plain, shaped)),
          to h,
        )),
        λ h. from h.1,
      )
    ]

-- A module that is not a test: its path does not begin with `tests/`.
abbrev pub IsProduction : String → Type 0
IsProduction m = (rest : Text) → codes m ≢ codes "tests/" ++ rest

pub is_test-IsProduction : (m : String) → (is_test m ≡ false) ↔ IsProduction m
unfolding is_test
is_test-IsProduction m = (to, from)
  where
    to : starts_with (codes "tests/") (codes m) ≡ false → IsProduction m
    to h rest e =
        let begins : starts_with (codes "tests/") (codes m) ≡ true =
          ap (starts_with (codes "tests/")) e ∙ prefix_joined (codes "tests/") rest in
        cc (h, begins)

    from : IsProduction m → starts_with (codes "tests/") (codes m) ≡ false
    from h = elim (Bool-cases (starts_with (codes "tests/") (codes m))) [
      | inr production ↦ production
      | inl tested ↦
          let (rest, e) = prefix_split (codes "tests/") (codes m) tested in absurd (h rest e)
    ]

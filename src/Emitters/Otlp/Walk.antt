-- ===== src/Emitters/Otlp/Walk.antt =====
-- What `emit_trace` of telemetry_engine/emitters/otlp.py tells the tracer, against the walk of the
-- trace and against a replay on a stack of open spans.
use mathlib.Core.List.{append_assoc, append-nil, map-append}
use llm_telemetry_engine.Base.{
  ℕ, suc, ◌+◌, ◌≡◌, refl, sym, ap, ◌∙◌, arith, Bool, true, false, ◌==◌, if◌then◌else◌, Option, none,
  some, String, List, [], ◌∷◌, ◌++◌, map, All, All-split, length, length-append, Result, ok, Dict,
}
use llm_telemetry_engine.Base.Issues.{All-append}
use llm_telemetry_engine.Emitters.Spans.{
  SpanFields, SpanData, span_data, Children, none_left, child, walk, walk_children, Attribute,
}
use llm_telemetry_engine.Emitters.Otlp.{
  SpanKind, kind_of, Status, status, Call, start_span, set_status, end_span, Start, Tracer,
  start_of, emit_span, emit_children, ns,
}

-- The innermost of the open spans.
abbrev pub innermost : List ℕ → Option ℕ
innermost [] = none
innermost (span ∷ spans) = some span

abbrev is : Option ℕ → Option ℕ → Bool
is none none = true
is (some x) (some y) = x == y
is _ _ = false

-- The stack of open spans after the calls, whose first started span has the given number. There is
-- none where a span starts under another than the innermost, or another than that is ended.
abbrev pub replay : List Call → ℕ → List ℕ → Option (List ℕ × ℕ)
replay [] n spans = some (spans, n)
replay (start_span s ∷ calls) n spans =
    let rest = replay calls (suc n) (n ∷ spans) in
    if is s.context (innermost spans) then rest else none
replay (set_status span _ ∷ calls) n spans =
    let rest = replay calls n spans in if is (some span) (innermost spans) then rest else none
replay (end_span span time ∷ calls) n [] = none
replay (end_span span time ∷ calls) n (open_span ∷ spans) =
    let rest = replay calls n spans in if span == open_span then rest else none

-- The spans that are started, without their context and kind.
abbrev pub starts : List Call → List (String × Dict Attribute × ℕ)
starts [] = []
starts (start_span s ∷ calls) = (s.name, s.attributes, s.start_time) ∷ starts calls
starts (_ ∷ calls) = starts calls

pub starts-append : (xs ys : List Call) → starts (xs ++ ys) ≡ starts xs ++ starts ys
starts-append [] ys = refl
starts-append (start_span s ∷ xs) ys = cc (starts-append xs ys)
starts-append (set_status span _ ∷ xs) ys = starts-append xs ys
starts-append (end_span span time ∷ xs) ys = starts-append xs ys

==_self : (x : ℕ) → (x == x) ≡ true
==_self x = ground arith

is_self : (o : Option ℕ) → is o o ≡ true
is_self none = refl
is_self (some x) = ==_self x

-- A span that `_SPAN_KINDS` has a kind for.
abbrev pub HasKind : SpanFields → Type 0
HasKind f = (kind : SpanKind) × (kind_of f.kind ≡ ok kind)

-- What is said of each time at which a span is ended.
abbrev pub EndsAt : (ℕ → Type 0) → Call → Type 0
EndsAt P (end_span span time) = P time
EndsAt P _ = Unit

module _ (trace_start_ns : ℕ) where
  abbrev pub end_of : SpanFields → ℕ
  end_of f = start_of trace_start_ns f + ns f.duration

  abbrev pub start_row : SpanFields → String × Dict Attribute × ℕ
  start_row f = (f.name, f.attributes, start_of trace_start_ns f)

  -- The calls of an emission: they start the spans of the list in its order, and open and close spans
  -- on the stack, which they leave as it was.
  pub record AreCalls (spans : List SpanFields) (n : ℕ) (stack : List ℕ) (new : List Call)
      : Type 1 where
    pub in_order : starts new ≡ map start_row spans
    pub balanced :
        (rest : List Call) → replay (new ++ rest) n stack ≡ replay rest (n + length spans) stack
    pub ended : (P : ℕ → Type 0) → All (λ f. P (end_of f)) spans → All (EndsAt P) new

  abbrev pub Emits : List SpanFields → ℕ → List ℕ → Tracer → Result ℕ × Tracer → Type 1
  Emits spans total stack t r =
      (new : List Call) × (r
        ≡ (ok total, record { started = t.started + length spans; calls = t.calls ++ new }))
      × AreCalls spans t.started stack new

module _ (trace_start_ns : ℕ) where
  AreCalls-nil : (n : ℕ) (stack : List ℕ) → AreCalls trace_start_ns [] n stack []
  AreCalls-nil n stack = record {
    in_order = refl;
    balanced = λ rest. ap (λ (m : ℕ). replay rest m stack) (omega arith);
    ended = λ P h. tt;
  }

  AreCalls-append :
      (xs ys : List SpanFields) (n : ℕ) (stack : List ℕ) (first second : List Call)
      → AreCalls trace_start_ns xs n stack first
      → AreCalls trace_start_ns ys (n + length xs) stack second
      → AreCalls trace_start_ns (xs ++ ys) n stack (first ++ second)
  AreCalls-append xs ys n stack first second h k = record {
    in_order =
        rw (starts-append first second, h.in_order, k.in_order)
          (sym (map-append (start_row trace_start_ns) xs ys));
    balanced = λ rest.
        ap (λ (l : List Call). replay l n stack) (append_assoc first second rest)
        ∙ h.balanced (second ++ rest)
        ∙ k.balanced rest
        ∙ ap (λ (m : ℕ). replay rest m stack) (omega (arith, length-append xs ys));
    ended = λ P e.
        let (left, right) = All-split (λ (f : SpanFields). P (end_of trace_start_ns f)) xs ys e in
        All-append (EndsAt P) first second (h.ended P left) (k.ended P right);
  }

  AreCalls-span :
      (f : SpanFields) (s : Start) (outcome : Status) (children : List SpanFields) (n : ℕ)
      (stack : List ℕ) (new : List Call)
      → start_row trace_start_ns f ≡ (s.name, s.attributes, s.start_time)
      → s.context ≡ innermost stack
      → AreCalls trace_start_ns children (suc n) (n ∷ stack) new
      → AreCalls trace_start_ns (f ∷ children) n stack (
          start_span s
          ∷ set_status n outcome
          ∷ (new ++ (end_span n (end_of trace_start_ns f) ∷ [])))
  AreCalls-span f s outcome children n stack new row parent h = record {
    in_order =
        let last : Call = end_span n (end_of trace_start_ns f) in
        rw (starts-append new (last ∷ []), append-nil (starts new), h.in_order, row) refl;
    balanced = λ rest.
        rw
          (
            parent,
            is_self (innermost stack),
            ==_self n,
            append_assoc new (end_span n (end_of trace_start_ns f) ∷ []) rest,
            h.balanced (end_span n (end_of trace_start_ns f) ∷ rest),
          )
          (rw (==_self n) (ap (λ (m : ℕ). replay rest m stack) (omega arith)));
    ended = λ P e. (tt, (tt, All-append (EndsAt P) new _ (h.ended P e.1) (e.0, tt)));
  }

emission_eq :
    (a b n m : ℕ) (xs ys : List Call)
    → a ≡ b
    → n ≡ m
    → xs ≡ ys
    → Path
        (Result ℕ × Tracer)
        (ok a, record { started = n; calls = xs })
        (ok b, record { started = m; calls = ys })
emission_eq a b n m xs ys e e' e'' = rw (e, e', e'') refl

module _ (trace_start_ns : ℕ) where
  mutual
    unfolding emit_span walk

    pub emit_span-Emits :
        (s : SpanData) (stack : List ℕ) (t : Tracer)
        → All HasKind (walk s)
        → Emits trace_start_ns
            (walk s)
            (length (walk s))
            stack
            t
            (emit_span trace_start_ns s (innermost stack) t)
    emit_span-Emits (span_data f children) stack t ((kind, found), h) =
        let s : Start = record {
          name = f.name;
          context = innermost stack;
          kind = kind;
          attributes = f.attributes;
          start_time = start_of trace_start_ns f;
        } in
        let opened : Tracer = record {
          started = suc t.started;
          calls = (t.calls ++ (start_span s ∷ [])) ++ (set_status t.started (status f.status) ∷ []);
        } in
        let (new, e, c) = emit_children-Emits children t.started 1 stack opened h in
        (
          start_span s
              ∷ set_status t.started (status f.status)
              ∷ (new ++ (end_span t.started (end_of trace_start_ns f) ∷ [])),
          rw (found, e) (emission_eq _ _ _ _ _ _ (omega arith) (omega arith) (simp (append_assoc))),
          AreCalls-span trace_start_ns f s (status f.status) (walk_children children) t.started
              stack new refl refl c,
        )

    emit_children-Emits :
        (cs : Children) (span emitted : ℕ) (stack : List ℕ) (t : Tracer)
        → All HasKind (walk_children cs)
        → Emits trace_start_ns
            (walk_children cs)
            (emitted + length (walk_children cs))
            (span ∷ stack)
            t
            (emit_children trace_start_ns cs (some span) emitted t)
    emit_children-Emits none_left span emitted stack t h = (
      [],
      emission_eq _ _ _ _ _ _ (omega arith) (omega arith) (sym (append-nil t.calls)),
      AreCalls-nil trace_start_ns t.started (span ∷ stack),
    )
    emit_children-Emits (child s rest) span emitted stack t h =
        let (left, right) = All-split HasKind (walk s) (walk_children rest) h in
        let (new, e, c) = emit_span-Emits s (span ∷ stack) t left in
        let after : Tracer = record {
          started = t.started + length (walk s);
          calls = t.calls ++ new;
        } in
        let (more, e', c') =
          emit_children-Emits rest span (emitted + length (walk s)) stack after right in
        (
          new ++ more,
          rw (e, e')
              (emission_eq _ _ _ _ _ _ (omega (arith, length-append (walk s) (walk_children rest)))
                (omega (arith, length-append (walk s) (walk_children rest)))
                (append_assoc t.calls new more)),
          AreCalls-append trace_start_ns (walk s) (walk_children rest) t.started (span ∷ stack) new
              more c c',
        )

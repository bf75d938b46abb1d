-- ===== src/Media/Ending.antt =====
-- How `Run` of internal/media/media.go ends.
use ngntun.Base.{
  Bool, true, false, ◌&&◌, List, [], ◌∷◌, ◌++◌, Option, none, some, ◌≡◌, ◌≢◌, inl, inr, refl, sym,
  ap, ◌∙◌, Option-cases, Bool-cases, subst,
}
use ngntun.Media.Forwarder.{Event, Exit, Forwarder, network_read_failed, run, step, tun_read_failed}
use ngntun.Media.Running.{
  Running, advance, advance_all, error_of, is_done, is_tun, late, result, start, stopped,
}

advance_all-append :
    (es ls : List Event) (r : Running)
    → advance_all (es ++ ls) r ≡ advance_all ls (advance_all es r)
unfolding advance_all
advance_all-append [] ls r = refl
advance_all-append (e ∷ es) ls r = advance_all-append es ls (advance e r).0

-- a forwarder whose first loop has returned
abbrev ending : Forwarder → Exit → Bool → Bool → Running
ending f x t n = record { fwd = f; first = some x; tun_done = t; network_done = n }

advance-ending :
    (e : Event) (f : Forwarder) (x : Exit) (t n : Bool)
    → (advance e (ending f x t n)).0.first ≡ some x
unfolding advance
advance-ending e f x t n = elim (Bool-cases (is_done e (ending f x t n))) [
  | inl q ↦ rw q refl
  | inr q ↦ elim (Option-cases (step (late e) f).exit) [
    | inl q' ↦ rw q (rw q' refl)
    | inr (y, q') ↦ rw q (rw q' refl)
  ]
]

ending_is :
    (r : Running) {x : Exit} → r.first ≡ some x → ending r.fwd x r.tun_done r.network_done ≡ r
ending_is r h = ap (λ (o : Option Exit). record r { first = o }) (sym h)

-- The first result stays.
advance_all-first :
    (es : List Event) (r : Running) {x : Exit}
    → r.first ≡ some x
    → (advance_all es r).first ≡ some x
unfolding advance_all
advance_all-first [] r h = h
advance_all-first (e ∷ es) r {x} h = advance_all-first es (advance e r).0 (
    subst (λ (z : Running). (advance e z).0.first ≡ some x) (ending_is r h)
      (advance-ending e r.fwd x r.tun_done r.network_done))

-- With no result yet, a round goes on, or gives the first one.
advance-start-none :
    (e : Event) (f : Forwarder)
    → (step e f).exit ≡ none
    → (advance e (start f)).0 ≡ start (step e f).next
unfolding advance
advance-start-none e f q = elim (Bool-cases (is_tun e)) [
  | inl t ↦ rw t (rw q refl)
  | inr t ↦ rw t (rw q refl)
]

advance-start-some :
    (e : Event) (f : Forwarder) {x : Exit}
    → (step e f).exit ≡ some x
    → (advance e (start f)).0.first ≡ some x
unfolding advance
advance-start-some e f q = elim (Bool-cases (is_tun e)) [
  | inl t ↦ rw t (rw q refl)
  | inr t ↦ rw t (rw q refl)
]

reads_end_of :
    (f : Forwarder) (x : Exit) (t n c c' : Bool)
    → result (advance_all (tun_read_failed c ∷ network_read_failed c' ∷ []) (ending f x t n))
      ≡ stopped (error_of (some x))
unfolding advance_all result advance is_tun late step
reads_end_of f x true true c c' = refl
reads_end_of f x true false c c' = refl
reads_end_of f x false true c c' = refl
reads_end_of f x false false c c' = refl

-- Both loops have returned once their reads fail, with the context ended.
reads_end :
    (c c' : Bool) (r : Running) {x : Exit}
    → r.first ≡ some x
    → result (advance_all (tun_read_failed c ∷ network_read_failed c' ∷ []) r)
      ≡ stopped (error_of (some x))
reads_end c c' r {x} h =
    subst
      (λ (z : Running).
        result (advance_all (tun_read_failed c ∷ network_read_failed c' ∷ []) z)
        ≡ stopped (error_of (some x)))
      (ending_is r h) (reads_end_of r.fwd x r.tun_done r.network_done c c')

run-none :
    (e : Event) (es : List Event) (f : Forwarder)
    → (step e f).exit ≡ none
    → ((run (e ∷ es) f).exit ≡ (run es (step e f).next).exit)
      × ((run (e ∷ es) f).next ≡ (run es (step e f).next).next)
unfolding run
run-none e es f q = rw (q, run) (refl, refl)

run-some :
    (e : Event) (es : List Event) (f : Forwarder) {x : Exit}
    → (step e f).exit ≡ some x
    → (run (e ∷ es) f).exit ≡ some x
unfolding run
run-some e es f q = rw (q, run) q

-- Up to the first result, the two loops are a sequence of rounds.
advance_all-none :
    (es : List Event) (f : Forwarder)
    → (run es f).exit ≡ none
    → advance_all es (start f) ≡ start (run es f).next
unfolding advance_all run
advance_all-none [] f h = refl
advance_all-none (e ∷ es) f h = elim (Option-cases (step e f).exit) [
  | inr (y, q) ↦ absurd (cc (h, run-some e es f q))
  | inl q ↦
      let (exit, next) = run-none e es f q in
      ap (advance_all es) (advance-start-none e f q)
      ∙ advance_all-none es (step e f).next (sym exit ∙ h)
      ∙ ap start (sym next)
]

advance_all-some :
    (es : List Event) (f : Forwarder) {x : Exit}
    → (run es f).exit ≡ some x
    → (advance_all es (start f)).first ≡ some x
unfolding advance_all run
advance_all-some [] f h = cc
advance_all-some (e ∷ es) f {x} h = elim (Option-cases (step e f).exit) [
  | inr (y, q) ↦
      advance_all-first es (advance e (start f)).0
        (advance-start-some e f q ∙ sym (run-some e es f q) ∙ h)
  | inl q ↦
      subst (λ (r : Running). (advance_all es r).first ≡ some x) (sym (advance-start-none e f q))
        (advance_all-some es (step e f).next (sym (run-none e es f q).0 ∙ h))
]

result-stopped : (r : Running) {y : Option Exit} → result r ≡ stopped y → y ≡ error_of r.first
unfolding result
result-stopped r h = elim (Bool-cases (r.tun_done && r.network_done)) [
  | inl q ↦ cc (rw q at h)
  | inr q ↦ absurd (cc (rw q at h))
]

-- How the two goroutines go, by the rounds up to the first return.
pub record Runs (es : List Event) (f : Forwarder) : Type 0 where
  -- Until a loop returns, both go on, and do what their rounds do.
  pub going : (run es f).exit ≡ none → advance_all es (start f) ≡ start (run es f).next
  -- What `Run` returns is the error of the first loop, or none if that was closed.
  pub stops :
      {y : Option Exit}
      → result (advance_all es (start f)) ≡ stopped y
      → ((run es f).exit ≢ none) × (y ≡ error_of (run es f).exit)
  -- It returns at the latest when the reads fail behind the first return.
  pub ends :
      {x : Exit}
      → (run es f).exit ≡ some x
      → (ls : List Event) (c c' : Bool)
      → result
          (advance_all (es ++ (ls ++ (tun_read_failed c ∷ network_read_failed c' ∷ []))) (start f))
        ≡ stopped (error_of (some x))

-- `Run` goes on until one of its loops returns, and then ends once the reads of the other fail, which
-- the close of the socket and of the tun device makes them do, whatever rounds are in between. Its
-- result is the error of the loop that returned first, or none if this was closed; what the second
-- loop returns does not matter.
pub run-Runs : (es : List Event) (f : Forwarder) → Runs es f
unfolding result
run-Runs es f = record {
  going = advance_all-none es f;
  stops = λ {y} h. elim (Option-cases (run es f).exit) [
    | inl q ↦
        absurd (cc (subst (λ (r : Running). result r ≡ stopped y) (advance_all-none es f q) h))
    | inr (x, q) ↦ (
      λ e. cc,
      result-stopped (advance_all es (start f)) h ∙ ap error_of (advance_all-some es f q ∙ sym q),
    )
  ];
  ends = λ {x} h ls c c'.
      let last = tun_read_failed c ∷ network_read_failed c' ∷ [] in
      ap result (
        advance_all-append es (ls ++ last) (start f)
        ∙ advance_all-append ls last (advance_all es (start f)))
      ∙ reads_end c c' _ (advance_all-first ls _ (advance_all-some es f h));
}

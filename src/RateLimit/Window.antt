-- ===== src/RateLimit/Window.antt =====
-- The sliding window of src/server/rate_limit.js against a limiter that forgets nothing.
use collectivus.Prelude.{
  ℕ, ◌≤◌, ◌≡◌, refl, Bool, List, [], ◌∷◌, ◌++◌, ltb, leb, if◌then◌else◌, length, length-append,
  keep, Text, text_eq, arith, Bool-cases, inl, inr, ap₂,
}
use collectivus.Prelude.Maps.{Map, lookup, lookup-insert}
use collectivus.RateLimit.{Limits, is_fresh, stamps_of, decide, check}

-- One call: its key and the clock's value.
abbrev pub Call : Type 0
Call = Text × ℕ

-- Times do not go back, from a given one on.
abbrev pub Ascends : ℕ → List Call → Type 0
Ascends last [] = Unit
Ascends last ((k, now) ∷ calls) = (last ≤ now) × Ascends now calls

-- The answers of a limiter that starts with a given table.
unfoldable pub run : Limits → Map (List ℕ) → List Call → List Bool
run o events [] = []
run o events ((key, now) ∷ calls) =
    let (verdict, next) = check o now key events in verdict.allowed ∷ run o next calls

-- The times at which a key was let through, latest first, after a list of calls.
abbrev pub push_if : Bool → ℕ → List ℕ → List ℕ
push_if b t ts = if b then ts ++ t ∷ [] else ts

abbrev pub Book : Type 0
Book = Text → List ℕ

abbrev pub note : Book → Text → List ℕ → Book
note book key ts k = if text_eq key k then ts else book k

-- The limiter as it is meant: it remembers every time at which a key was let through, and lets a
-- call through if fewer than `max` of the key's lie in the window.
abbrev pub admits : Limits → ℕ → List ℕ → Bool
admits o now past = ltb (length (keep (is_fresh o now) past)) o.max

pub reference : Limits → Book → List Call → List Bool
reference o book [] = []
reference o book ((key, now) ∷ calls) =
    let ok = admits o now (book key) in
    ok ∷ reference o (note book key (push_if ok now (book key))) calls

-- The table holds, of each key's times, those that are fresh at `last` and maybe more.
abbrev Agrees : Limits → ℕ → Map (List ℕ) → Book → Type 0
Agrees o last events book =
    (k : Text) (now : ℕ)
    → last ≤ now
    → keep (is_fresh o now) (stamps_of (lookup k events)) ≡ keep (is_fresh o now) (book k)

keep-append {ℓ} :
    {A : Type ℓ} (p : A → Bool) (xs ys : List A) → keep p (xs ++ ys) ≡ keep p xs ++ keep p ys
keep-append p [] ys = refl
keep-append p (x ∷ xs) ys = ground (arith, keep-append p xs ys)

-- What is stale stays stale.
keep-keep :
    (o : Limits) (now later : ℕ) (xs : List ℕ)
    → now ≤ later
    → keep (is_fresh o later) (keep (is_fresh o now) xs) ≡ keep (is_fresh o later) xs
keep-keep o now later [] h = refl
keep-keep o now later (x ∷ xs) h = ground (arith, keep-keep o now later xs h)

decide-admits :
    (o : Limits) (now : ℕ) (past : List ℕ)
    → ((decide o now (keep (is_fresh o now) past)).0.allowed ≡ admits o now past)
unfolding decide
decide-admits o now past = ground arith

-- The stamps that are stored, as far as they are fresh later on.
decide-stored :
    (o : Limits) (now later : ℕ) (stamps past : List ℕ)
    → now ≤ later
    → ((t : ℕ) → now ≤ t → keep (is_fresh o t) stamps ≡ keep (is_fresh o t) past)
    → keep (is_fresh o later) (decide o now (keep (is_fresh o now) stamps)).1
      ≡ keep (is_fresh o later) (push_if (admits o now past) now past)
unfolding decide
decide-stored o now later stamps past h same =
    elim (Bool-cases (leb o.max (length (keep (is_fresh o now) past)))) [
      | inl full ↦
          ground (arith, same now (omega arith), same later h, keep-keep o now later stamps h)
      | inr room ↦ ground (
        arith,
        same now (omega arith),
        same later h,
        keep-keep o now later stamps h,
        keep-append (is_fresh o later) (keep (is_fresh o now) past) (now ∷ []),
        keep-append (is_fresh o later) past (now ∷ []),
        keep-keep o now later past h,
      )
    ]

check-Agrees :
    (o : Limits) (last now : ℕ) (key : Text) (events : Map (List ℕ)) (book : Book)
    → last ≤ now
    → Agrees o last events book
    → ((check o now key events).0.allowed ≡ admits o now (book key))
      × Agrees o now
          (check o now key events).1
          (note book key (push_if (admits o now (book key)) now (book key)))
unfolding check
check-Agrees o last now key events book h same = (
  rw (same key now h) (decide-admits o now (book key)),
  λ k later later_ok. rw lookup-insert (elim (Bool-cases (text_eq key k)) [
    | inl e ↦ rw e (
        decide-stored o now later (stamps_of (lookup key events)) (book key) later_ok
          (λ t le. same key t (omega arith)))
    | inr e ↦ rw e (same k later (omega arith))
  ]),
)

-- From tables that agree, the limiter answers as the one that remembers everything.
run-Agrees :
    (o : Limits) (last : ℕ) (events : Map (List ℕ)) (book : Book) (calls : List Call)
    → Agrees o last events book
    → Ascends last calls
    → run o events calls ≡ reference o book calls
unfolding run reference
run-Agrees o last events book [] same h = refl
run-Agrees o last events book ((key, now) ∷ calls) same (le, h) =
    let (ok, next) = check-Agrees o last now key events book le same in
    ap₂ ◌∷◌ ok (run-Agrees o now (check o now key events).1 _ calls next h)

-- Dropping stale time stamps changes no answer: on every sequence of calls whose clock does not
-- run back, a fresh limiter answers as one that remembers every time and counts those in the window.
pub run-eq-reference :
    (o : Limits) (calls : List Call)
    → Ascends 0 calls
    → run o [] calls ≡ reference o (λ k. []) calls
run-eq-reference o calls h = run-Agrees o 0 [] (λ k. []) calls (unfold lookup in λ k now le. refl) h

-- The times at which each key was let through, after the calls.
pub admitted : Limits → Map (List ℕ) → Book → List Call → Book
admitted o events book [] = book
admitted o events book ((key, now) ∷ calls) =
    let (verdict, next) = check o now key events in
    admitted o next (note book key (push_if verdict.allowed now (book key))) calls

-- The time of the last call.
abbrev pub last_time : ℕ → List Call → ℕ
last_time last [] = last
last_time last ((key, now) ∷ calls) = last_time now calls

abbrev IsBounded : Limits → ℕ → Book → Type 0
IsBounded o last book =
    (k : Text) (now : ℕ) → last ≤ now → length (keep (is_fresh o now) (book k)) ≤ o.max

length-keep : (p : ℕ → Bool) (xs : List ℕ) → length (keep p xs) ≤ length xs
length-keep p [] = omega arith
length-keep p (x ∷ xs) = ground (arith, length-keep p xs)

fewer_later :
    (o : Limits) (now later : ℕ) (xs : List ℕ)
    → now ≤ later
    → length (keep (is_fresh o later) xs) ≤ length (keep (is_fresh o now) xs)
fewer_later o now later xs h =
    rw (← keep-keep o now later xs h) (length-keep (is_fresh o later) (keep (is_fresh o now) xs))

push-bounded :
    (o : Limits) (now later : ℕ) (past : List ℕ)
    → now ≤ later
    → length (keep (is_fresh o later) past) ≤ o.max
    → length (keep (is_fresh o later) (push_if (admits o now past) now past)) ≤ o.max
push-bounded o now later past h fits = ground (
  arith,
  fewer_later o now later past h,
  keep-append (is_fresh o later) past (now ∷ []),
  length-append (keep (is_fresh o later) past) (keep (is_fresh o later) (now ∷ [])),
)

note-IsBounded :
    (o : Limits) (last now : ℕ) (key : Text) (book : Book)
    → last ≤ now
    → IsBounded o last book
    → IsBounded o now (note book key (push_if (admits o now (book key)) now (book key)))
note-IsBounded o last now key book h fits k later le = elim (Bool-cases (text_eq key k)) [
  | inl e ↦ rw e (push-bounded o now later (book key) le (fits key later (omega arith)))
  | inr e ↦ rw e (fits k later (omega arith))
]

admitted-IsBounded :
    (o : Limits) (last : ℕ) (events : Map (List ℕ)) (book : Book) (calls : List Call)
    → Agrees o last events book
    → IsBounded o last book
    → Ascends last calls
    → IsBounded o (last_time last calls) (admitted o events book calls)
unfolding admitted
admitted-IsBounded o last events book [] same fits h = fits
admitted-IsBounded o last events book ((key, now) ∷ calls) same fits (le, h) =
    let (ok, next) = check-Agrees o last now key events book le same in
    rw ok (
      admitted-IsBounded o now (check o now key events).1 _ calls next
        (note-IsBounded o last now key book le fits) h)

-- On every sequence of calls whose clock does not run back, at the time of the last call or any
-- later one, no more than `max` of the calls that were let through for a key lie in the window.
pub admitted-le-max :
    (o : Limits) (calls : List Call) (key : Text) (now : ℕ)
    → Ascends 0 calls
    → last_time 0 calls ≤ now
    → length (keep (is_fresh o now) (admitted o [] (λ k. []) calls key)) ≤ o.max
admitted-le-max o calls key now h le =
    admitted-IsBounded o 0 [] (λ k. []) calls (unfold lookup in λ k t le'. refl)
      (λ k t le'. omega arith) h key now le

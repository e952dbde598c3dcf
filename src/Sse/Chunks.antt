-- ===== src/Sse/Chunks.antt =====
-- How src/sse.js reassembles a stream: `feed` over chunks.
use mathlib.Core.List.{flatten}
use collectivus.Prelude.{
  ℕ, zero, suc, ◌+◌, ◌≤◌, ◌<◌, ◌≡◌, refl, sym, ap, ◌∙◌, Option, none, some, List, [], ◌∷◌, ◌++◌,
  append_assoc, append-nil, length, take, drop, length-append, length-drop, Text, arith,
  Option-cases, inl, inr,
}
use collectivus.Sse.{
  SseEvent, Decoder, SseParser, bytes, feed_chunk, find_separator, parse_block, push_event, drain,
  feed, feed_all,
}
use collectivus.Sse.Scan.{find_separator-eq-scan, scan_bounds, scan-append}

found_bounds : (s : Text) {i l : ℕ} → find_separator s ≡ some (i, l) → (0 < l) × (i + l ≤ length s)
found_bounds s h = scan_bounds s (sym (find_separator-eq-scan s) ∙ h)

found-append :
    (s t : Text) {r : ℕ × ℕ} → find_separator s ≡ some r → find_separator (s ++ t) ≡ some r
found-append s t h =
    find_separator-eq-scan (s ++ t) ∙ scan-append s t (sym (find_separator-eq-scan s) ∙ h)

take-append : (n : ℕ) (s t : Text) → n ≤ length s → take n (s ++ t) ≡ take n s
take-append zero s t h = refl
take-append (suc n) [] t h = absurd (omega arith)
take-append (suc n) (c ∷ s) t h = ap (λ r. c ∷ r) (take-append n s t (omega arith))

drop-append : (n : ℕ) (s t : Text) → n ≤ length s → drop n (s ++ t) ≡ drop n s ++ t
drop-append zero s t h = refl
drop-append (suc n) [] t h = absurd (omega arith)
drop-append (suc n) (c ∷ s) t h = drop-append n s t (omega arith)

abbrev pub more_events : Option SseEvent → List SseEvent × Text → List SseEvent × Text
more_events ev rest = (push_event ev rest.0, rest.1)

pub drain_found :
    (f : ℕ) (b : Text) {i l : ℕ}
    → find_separator b ≡ some (i, l)
    → drain (suc f) b ≡ more_events (parse_block (take i b)) (drain f (drop (i + l) b))
unfolding drain
drain_found f b h = rw (h, drain)

pub drain-none : (f : ℕ) (b : Text) → find_separator b ≡ none → drain (suc f) b ≡ ([], b)
unfolding drain
drain-none f b h = rw (h, drain)

-- Any fuel above the length gives the same result.
pub drain_fuel : (f g : ℕ) (b : Text) → length b < f → length b < g → drain f b ≡ drain g b
drain_fuel zero g b p q = absurd (omega arith)
drain_fuel (suc f) zero b p q = absurd (omega arith)
drain_fuel (suc f) (suc g) b p q = elim (Option-cases (find_separator b)) [
  | inl e ↦ drain-none f b e ∙ sym (drain-none g b e)
  | inr ((i, l), e) ↦
      let (pos, fits) = found_bounds b e in
      let shorter = length-drop (i + l) b in
      drain_found f b e
      ∙ ap (more_events (parse_block (take i b)))
          (drain_fuel f g (drop (i + l) b) (omega arith) (omega arith))
      ∙ sym (drain_found g b e)
]

push_event-append :
    (ev : Option SseEvent) (xs ys : List SseEvent)
    → push_event ev (xs ++ ys) ≡ push_event ev xs ++ ys
push_event-append none xs ys = refl
push_event-append (some e) xs ys = refl

abbrev then_drain : ℕ → List SseEvent × Text → Text → List SseEvent × Text
then_drain g r t = (r.0 ++ (drain g (r.1 ++ t)).0, (drain g (r.1 ++ t)).1)

drain-append :
    (f g : ℕ) (b t : Text)
    → length b < f
    → length (b ++ t) < g
    → drain g (b ++ t) ≡ then_drain g (drain f b) t
drain-append zero g b t p q = absurd (omega arith)
drain-append (suc f) zero b t p q = absurd (omega arith)
drain-append (suc f) (suc g) b t p q = elim (Option-cases (find_separator b)) [
  | inl e ↦ rw (drain-none f b e) refl
  | inr ((i, l), e) ↦
      let (pos, fits) = found_bounds b e in
      let rest = drop (i + l) b in
      let block = parse_block (take i b) in
      let longer = length-append b t in
      let shorter = length-drop (i + l) b in
      let tail_longer = length-append rest t in
      let ih = drain-append f (suc g) rest t (omega arith) (omega arith) in
      let enough = drain_fuel g (suc g) (rest ++ t) (omega arith) (omega arith) in
      drain_found g (b ++ t) (found-append b t e)
      ∙ rw
          (
            take-append i b t (omega arith),
            drop-append (i + l) b t fits,
            enough,
            ih,
            drain_found f b e,
          )
          (ap (λ (evs : List SseEvent). (evs, (then_drain (suc g) (drain f rest) t).1))
            (push_event-append block _ _))
]

-- The loop ends for lack of a terminator, never for lack of fuel.
drain_done :
    (f : ℕ) (b : Text)
    → length b < f
    → (find_separator (drain f b).1 ≡ none) × (length (drain f b).1 ≤ length b)
drain_done zero b p = absurd (omega arith)
drain_done (suc f) b p = elim (Option-cases (find_separator b)) [
  | inl e ↦ rw (drain-none f b e) (e, omega arith)
  | inr ((i, l), e) ↦
      let (pos, fits) = found_bounds b e in
      let shorter = length-drop (i + l) b in
      let (done, le) = drain_done f (drop (i + l) b) (omega arith) in
      rw (drain_found f b e) (done, omega arith)
]

-- After `feed` the buffer holds no complete event, and the call took nothing but what it was given.
pub feed_done : (buffer c : Text) → find_separator (feed buffer c).1 ≡ none
unfolding feed
feed_done buffer c = (drain_done _ (buffer ++ c) (omega arith)).0

-- Feeding two chunks one after the other gives the events and the buffer of feeding them as one.
pub feed-append :
    (buffer c d : Text)
    → feed buffer (c ++ d)
      ≡ ((feed buffer c).0 ++ (feed (feed buffer c).1 d).0, (feed (feed buffer c).1 d).1)
unfolding feed
feed-append buffer c d =
    let b = buffer ++ c in
    let f = suc (length b) in
    let g = suc (length (b ++ d)) in
    let left = (drain f b).1 in
    let (_, le) = drain_done f b (omega arith) in
    let whole = length-append b d in
    let part = length-append left d in
    rw (← append_assoc buffer c d) (
      drain-append f g b d (omega arith) (omega arith)
      ∙ ap (λ (r : List SseEvent × Text). ((drain f b).0 ++ r.0, r.1))
          (drain_fuel g (suc (length (left ++ d))) (left ++ d) (omega arith) (omega arith)))

feed_nothing : (buffer : Text) → find_separator buffer ≡ none → feed buffer [] ≡ ([], buffer)
unfolding feed
feed_nothing buffer h = rw (append-nil buffer) (drain-none (length buffer) buffer h)

-- However a stream is cut into chunks, the events and the buffer that is left are those of feeding
-- the whole stream at once, if the buffer holds no complete event at the start.
pub feed_all-eq-feed :
    (buffer : Text) (chunks : List Text)
    → find_separator buffer ≡ none
    → feed_all buffer chunks ≡ feed buffer (flatten chunks)
unfolding feed_all flatten
feed_all-eq-feed buffer [] h = sym (feed_nothing buffer h)
feed_all-eq-feed buffer (chunk ∷ chunks) h =
    let (events, left) = feed buffer chunk in
    ap (λ (r : List SseEvent × Text). ((feed buffer chunk).0 ++ r.0, r.1))
      (feed_all-eq-feed (feed buffer chunk).1 chunks (feed_done buffer chunk))
    ∙ sym (feed-append buffer chunk (flatten chunks))

module _ (d : Decoder) where
  -- For a decoder whose output does not depend on how the bytes are cut, feeding two byte chunks
  -- gives the events and the parser of feeding their concatenation.
  pub feed_chunk-append :
      ((s : d.State) (a b : List ℕ)
        → d.decode s (a ++ b)
          ≡ ((d.decode s a).0 ++ (d.decode (d.decode s a).1 b).0, (d.decode (d.decode s a).1 b).1))
      → (p : SseParser d) (a b : List ℕ)
      → feed_chunk d p (bytes (a ++ b)) ≡ (
        (feed_chunk d p (bytes a)).0 ++ (feed_chunk d (feed_chunk d p (bytes a)).1 (bytes b)).0,
        (feed_chunk d (feed_chunk d p (bytes a)).1 (bytes b)).1,
      )
  unfolding feed_chunk
  feed_chunk-append law p a b =
      rw (law p.decoder a b)
        (rw (feed-append p.buffer (d.decode p.decoder a).0 (d.decode (d.decode p.decoder a).1 b).0))

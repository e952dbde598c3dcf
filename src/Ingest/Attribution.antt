-- ===== src/Ingest/Attribution.antt =====
-- Whose rows stand in the files that src/server/ingest.js writes.
use collectivus.Prelude.{
  ◌≡◌, refl, sym, ap, subst, true, ◌||◌, Option, none, some, List, [], ◌∷◌, All, Text, text,
  text_eq, arith, inl, inr, if_cases, Bool-cases,
}
use collectivus.Prelude.Maps.{lookup}
use collectivus.Prelude.Splits.{split_on}
use collectivus.Enrollment.{matches_pattern}
use collectivus.Ingest.{
  IngestOptions, Formats, Request, Ingest, Admission, join_path, take_body, admit, admitted,
  admit_pending, admit_gateway, member, signals,
}
use collectivus.Ingest.Accounting.{
  Event, arriving, storing, settling, handle, handle_all, admit-Untouched,
}
use collectivus.Ingest.Places.{
  IsOwn, tag_rows-IsOwn, same_gateway, PlacedFile, PlacedWrite, lookup-PlacedFile, IsAttributed,
  settle-IsAttributed, store_tagged-IsAttributed,
}

admit_pending-admitted :
    (o : IngestOptions) (gateway other : Text) (s : Ingest)
    → (admit_pending o gateway s).0 ≡ admitted other
    → gateway ≡ other
admit_pending-admitted o gateway other s h = ground arith

admit_gateway-authenticated :
    (o : IngestOptions) (r : Request) (sub : Option Text) (gateway : Text) (s : Ingest)
    → (admit_gateway o r sub s).0 ≡ admitted gateway
    → (sub ≡ some gateway) × (matches_pattern gateway ≡ true)
admit_gateway-authenticated o r none gateway s = λ h. cc
admit_gateway-authenticated o r (some g) gateway s = elim (Bool-cases (matches_pattern g)) [
  | inr e ↦ rw e (λ h. cc)
  | inl e ↦ rw e (
      if_cases
        (λ (p : Admission × Ingest).
          p.0 ≡ admitted gateway → (some g ≡ some gateway) × (matches_pattern gateway ≡ true))
        (text_eq r.content_type (text "application/x-ndjson")
          || text_eq r.content_type (text "application/jsonl"))
        _ _
        (λ k h.
          let same = admit_pending-admitted o g gateway s h in
          (ap some same, subst (λ t. matches_pattern t ≡ true) same e))
        λ k h. cc)
]

-- A request that is let through to its body is authenticated as a gateway with a valid id.
pub admit-authenticated :
    (o : IngestOptions) (r : Request) (gateway : Text) (s : Ingest)
    → (admit o r s).0 ≡ admitted gateway
    → (r.claims_sub ≡ some gateway) × (matches_pattern gateway ≡ true)
unfolding admit
admit-authenticated o r gateway s =
    if_cases
      (λ (p : Admission × Ingest).
        p.0 ≡ admitted gateway → (r.claims_sub ≡ some gateway) × (matches_pattern gateway ≡ true))
      (member r.signal signals) _ _ (λ e. admit_gateway-authenticated o r r.claims_sub gateway s)
      λ e h. cc

module _ (f : Formats) (o : IngestOptions) where
  -- The body that is stored is that of a request that `admit` let through, in some state.
  abbrev pub WasAdmitted : Event → Type 0
  WasAdmitted (arriving r) = Unit
  WasAdmitted (storing gateway signal now body) =
      (r : Request) × (s : Ingest) × ((admit o r s).0 ≡ admitted gateway)
  WasAdmitted (settling end file) = Unit

  handle-IsAttributed :
      (e : Event) (s : Ingest)
      → WasAdmitted e
      → IsAttributed f o s
      → IsAttributed f o (handle o f e s)
  unfolding handle take_body
  handle-IsAttributed (arriving r) s w a =
      let u = admit-Untouched o r s in
      record {
        writes_placed = subst (All (PlacedWrite f o)) (sym u.same_writes) a.writes_placed;
        files_placed = subst (All (PlacedFile f o)) (sym u.same_files) a.files_placed;
      }
  handle-IsAttributed (storing gateway signal now (inl body)) s (r, t, e) a =
      store_tagged-IsAttributed f o gateway signal now _ _ s (admit-authenticated o r gateway t e).1
        (tag_rows-IsOwn f gateway (f.iso now) 1 (split_on b'\n' [] body)) a
  handle-IsAttributed (storing gateway signal now (inr status)) s w a = a
  handle-IsAttributed (settling end file) s w a = settle-IsAttributed f o end file s a

  pub handle_all-IsAttributed :
      (events : List Event) (s : Ingest)
      → All WasAdmitted events
      → IsAttributed f o s
      → IsAttributed f o (handle_all o f events s)
  unfolding handle_all
  handle_all-IsAttributed [] s w a = a
  handle_all-IsAttributed (e ∷ events) s (k, w) a =
      handle_all-IsAttributed events (handle o f e s) w (handle-IsAttributed e s k a)

  -- No gateway can put a row into the files of another: whatever requests arrive, are stored and
  -- are written, in any order, every row in a file under a gateway's directory is a JSON object
  -- whose `_ingest` tag names that gateway, whatever `_ingest` its sender had put in. The bodies
  -- that are stored are of requests that were let through, which is for the gateway of their token
  -- alone, and at the start no file was there.
  pub handle_all-IsOwn :
      (events : List Event) (gateway below : Text) (lines : List Text) (s : Ingest)
      → All WasAdmitted events
      → s.writes ≡ []
      → s.files ≡ []
      → matches_pattern gateway ≡ true
      → lookup (join_path o.sink_dir (join_path gateway below)) (handle_all o f events s).files
        ≡ some lines
      → All (IsOwn f gateway) lines
  handle_all-IsOwn events gateway below lines s w no_writes no_files v e =
      let start : IsAttributed f o s = record {
        writes_placed = subst (All (PlacedWrite f o)) (sym no_writes) tt;
        files_placed = subst (All (PlacedFile f o)) (sym no_files) tt;
      } in
      let path = join_path o.sink_dir (join_path gateway below) in
      let placed =
        lookup-PlacedFile f o path _ (handle_all-IsAttributed events s w start).files_placed lines
          e in
      subst (λ g. All (IsOwn f g) lines)
        (same_gateway f o.sink_dir path gateway below lines placed v refl) placed.own

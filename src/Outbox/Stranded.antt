-- ===== src/Outbox/Stranded.antt =====
-- A claimed batch of src/gateway/outbox_sink.js when no token can be had.
use collectivus.Prelude.{
  ℕ, ◌≡◌, ◌≢◌, refl, ap, Option, none, some, List, [], ◌∷◌, Text, text_eq_iff, arith,
}
use collectivus.Prelude.Maps.{Map, lookup, remove, lookup-insert, lookup-remove}
use collectivus.Outbox.{
  Options, Outbox, Line, Batch, batch_of, claim_next, claim_name, move_to_failed, least,
  claim_target,
}
use collectivus.Outbox.Paths.{unique_path-free}
use collectivus.Outbox.Delivery.{
  send_claimed, Fate, stranded, delivered, poisoned, unfinished, no_token, Network, settle,
  send_loop, post_body,
}

-- The sender as it runs on: it claims the next ready file and sends it, with the answers for it.
abbrev pub send_next : Options → ℕ → List Network → Option Text × Outbox → Outbox
send_next o now nets (none, s) = s
send_next o now nets (some path, s) = (send_claimed now path nets s).1

pub send_round : Options → ℕ → List Network → Outbox → Outbox
send_round o now nets s = send_next o now nets (claim_next o s)

pub send_rounds : Options → ℕ → List (List Network) → Outbox → Outbox
send_rounds o now [] s = s
send_rounds o now (nets ∷ rounds) s = send_rounds o now rounds (send_round o now nets s)

no_token-stranded :
    (now : ℕ) (path : Text) (nets : List Network) (s : Outbox) (line : Line) (lines : Batch)
    → lookup path s.sending ≡ some (line ∷ lines)
    → send_claimed now path (no_token ∷ nets) s ≡ (stranded, s)
unfolding send_claimed send_loop post_body
no_token-stranded now path nets s line lines h = rw h refl

least-there : (dir : Map Batch) (name : Text) → least dir ≡ some name → lookup name dir ≢ none
unfolding lookup least
least-there [] name e = ground arith
least-there ((k, v) ∷ dir) name e =
    ground (arith, text_eq_iff k name, text_eq_iff name k, least-there dir name)

-- The file is claimed, and no ready file has its name.
abbrev IsAside : Text → Batch → Outbox → Type 0
IsAside path lines s = (lookup path s.sending ≡ some lines) × (lookup path s.ready ≡ none)

remove-aside :
    (path to : Text) (lines : Batch) (dir : Map Batch)
    → to ≢ path
    → lookup path dir ≡ some lines
    → lookup path (remove to dir) ≡ some lines
remove-aside path to lines dir ne h = ground (arith, lookup-remove to path dir, text_eq_iff to path)

settle-IsAside :
    (fate : Fate) (path to : Text) (lines : Batch) (s : Outbox)
    → to ≢ path
    → IsAside path lines s
    → IsAside path lines (settle fate to s)
unfolding move_to_failed
settle-IsAside delivered path to lines s ne (h, k) = (remove-aside path to lines s.sending ne h, k)
settle-IsAside poisoned path to lines s ne (h, k) = (remove-aside path to lines s.sending ne h, k)
settle-IsAside stranded path to lines s ne h = h
settle-IsAside unfinished path to lines s ne h = h

claim_target-ne :
    (o : Options) (path name : Text) (lines : Batch) (sending : Map Batch)
    → name ≢ path
    → lookup path sending ≡ some lines
    → claim_target o sending name ≢ path
unfolding claim_target
claim_target-ne o path name lines sending ne h e = ground (arith, unique_path-free sending name)

send_next-IsAside :
    (o : Options) (now : ℕ) (nets : List Network) (path : Text) (lines : Batch) (name : Option Text)
    (s : Outbox)
    → (name ≢ some path)
    → IsAside path lines s
    → IsAside path lines (send_next o now nets (claim_name o name s))
unfolding send_claimed
send_next-IsAside o now nets path lines none s ne h = h
send_next-IsAside o now nets path lines (some name) s ne (h, k) =
    let to = claim_target o s.sending name in
    let apart = claim_target-ne o path name lines s.sending (λ e. ne (ap some e)) h in
    let claimed = (claim_name o (some name) s).1 in
    settle-IsAside (send_claimed now to nets claimed).0 path to lines claimed apart (
      ground (
        arith,
        lookup-insert to path (batch_of (lookup name s.ready)) s.sending,
        text_eq_iff to path,
      ),
      ground (arith, lookup-remove name path s.ready),
    )

send_round-IsAside :
    (o : Options) (now : ℕ) (nets : List Network) (path : Text) (lines : Batch) (s : Outbox)
    → IsAside path lines s
    → IsAside path lines (send_round o now nets s)
unfolding send_round claim_next
send_round-IsAside o now nets path lines s h =
    send_next-IsAside o now nets path lines (least s.ready) s (λ e. least-there s.ready path e h.1)
      h

send_rounds-IsAside :
    (o : Options) (now : ℕ) (rounds : List (List Network)) (path : Text) (lines : Batch)
    (s : Outbox)
    → IsAside path lines s
    → IsAside path lines (send_rounds o now rounds s)
unfolding send_rounds
send_rounds-IsAside o now [] path lines s h = h
send_rounds-IsAside o now (nets ∷ rounds) path lines s h =
    send_rounds-IsAside o now rounds path lines (send_round o now nets s)
      (send_round-IsAside o now nets path lines s h)

-- A claimed batch whose first post finds no token (`getCurrentJwt` throws) stays in `.sending`, and
-- the sender never takes it up again: however often it runs on, whatever the network answers, the
-- batch is still there, as long as no ready file has its name.
pub stranded_forever :
    (o : Options) (now : ℕ) (path : Text) (nets : List Network) (rounds : List (List Network))
    (s : Outbox) (line : Line) (lines : Batch)
    → lookup path s.sending ≡ some (line ∷ lines)
    → lookup path s.ready ≡ none
    → ((send_claimed now path (no_token ∷ nets) s).0 ≡ stranded)
      × (lookup path
            (send_rounds o now rounds (send_claimed now path (no_token ∷ nets) s).1).sending
          ≡ some (line ∷ lines))
stranded_forever o now path nets rounds s line lines h k =
    rw (no_token-stranded now path nets s line lines h)
      (refl, (send_rounds-IsAside o now rounds path (line ∷ lines) s (h, k)).0)

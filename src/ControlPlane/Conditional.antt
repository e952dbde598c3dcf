-- ===== src/ControlPlane/Conditional.antt =====
-- `GET /v1/config` of src/server/control_plane.js with the ETag that the gateway has.
use collectivus.Prelude.{
  ℕ, ◌≡◌, refl, sym, ap, ◌∙◌, Bool, false, Option, none, if_cases, true, some, ◌∷◌, if◌then◌else◌,
  Text, text, text_eq, text_eq_refl,
}
use collectivus.Enrollment.{all_hex, is_valid_gateway_id}
use collectivus.Json.{Json, IsJson, deep_equal}
use collectivus.Jwt.{Claims}
use collectivus.Registry.{
  Platform, Registry, Result, failed, invalid_config, check_config, read_config, ok, compute_etag,
  get_config,
}
use collectivus.Registry.Canonical.{compute_etag-deep_equal}
use collectivus.ControlPlane.{
  Setup, ControlPlane, HttpRequest, config_reply, not_modified, replied, config_route, route_of,
}
use collectivus.ControlPlane.Etags.{Spelling, spell, etag_matches-spell}
use collectivus.ControlPlane.Requests.{dispatch, begin}
use collectivus.ControlPlane.Bearers.{Bears, Bears-authorize}

-- The ETag that `getConfig` answers with is that of the configuration it answers with.
checked-etag :
    (p : Platform) (b : Bool) (v w : Json) (etag : Text)
    → (let answer : Result (Option (Json × Text)) = ok (some (v, compute_etag p v)) in
        if b then answer else failed invalid_config)
      ≡ ok (some (w, etag))
    → etag ≡ compute_etag p w
checked-etag p true v w etag h = cc
checked-etag p false v w etag h = cc

check_config-etag :
    (p : Platform) (o : Option Json) (w : Json) (etag : Text)
    → check_config p o ≡ ok (some (w, etag))
    → etag ≡ compute_etag p w
check_config-etag p none w etag h = cc
check_config-etag p (some v) w etag h = checked-etag p (p.validate v) v w etag h

read_config-etag :
    (p : Platform) (o : Option Text) (w : Json) (etag : Text)
    → read_config p o ≡ ok (some (w, etag))
    → etag ≡ compute_etag p w
read_config-etag p none w etag h = cc
read_config-etag p (some raw) w etag h = check_config-etag p (p.parse raw) w etag h

get_config-etag :
    (p : Platform) (g : Text) (r : Registry) (w : Json) (etag : Text)
    → get_config p g r ≡ ok (some (w, etag))
    → etag ≡ compute_etag p w
unfolding get_config
get_config-etag p g r w etag =
    if_cases
      (λ (x : Result (Option (Json × Text))). x ≡ ok (some (w, etag)) → etag ≡ compute_etag p w)
      (is_valid_gateway_id g) _ _ (λ e h. read_config-etag p _ w etag h) λ e h. cc

module _ (su : Setup) (now : ℕ) (q : HttpRequest) (c : Claims) where
  -- A poll of the configuration, by the bearer of a token, with an ETag in any spelling.
  pub record Polls (sp : Spelling) (etag : Text) : Type 0 where
    pub path : q.path ≡ text "/v1/config"
    pub method : q.method ≡ text "GET"
    pub bearer : Bears su now q.authorization c
    pub known : q.if_none_match ≡ some (spell sp etag)

  begin-config :
      (s : ControlPlane)
      → q.path ≡ text "/v1/config"
      → q.method ≡ text "GET"
      → begin su now q s ≡ dispatch su now config_route q s
  unfolding begin route_of text_eq
  begin-config s p m = rw (p, m) refl

  -- A poll is answered with 304 exactly where the ETag is that of the stored configuration, and
  -- with that configuration and its ETag otherwise.
  pub begin-conditional :
      (sp : Spelling) (h : ℕ) (hs : Text) (w : Json) (etag : Text) (s : ControlPlane)
      → Polls sp (h ∷ hs)
      → all_hex (h ∷ hs) ≡ true
      → get_config su.platform c.sub s.registry ≡ ok (some (w, etag))
      → begin su now q s
        ≡ (replied (if text_eq (h ∷ hs) etag then not_modified etag else config_reply w etag), s)
  unfolding dispatch
  begin-conditional sp h hs w etag s polls hex stored =
      begin-config s polls.path polls.method
      ∙ rw
          (
            Bears-authorize su now q.authorization c polls.bearer,
            stored,
            polls.known,
            etag_matches-spell sp h hs etag hex,
          )
          refl

  -- A poll with the ETag of one configuration, in any spelling, by the bearer of a token of a gateway
  -- whose stored configuration hot reload would not tell from that one, is answered with 304 and
  -- changes nothing. The ETag is hexadecimal and not empty, the stored configuration can be read and
  -- is valid, and no object of the two configurations has a key twice.
  pub begin-unchanged :
      (sp : Spelling) (h : ℕ) (hs : Text) (old w : Json) (etag : Text) (s : ControlPlane)
      → Polls sp (h ∷ hs)
      → all_hex (h ∷ hs) ≡ true
      → compute_etag su.platform old ≡ h ∷ hs
      → get_config su.platform c.sub s.registry ≡ ok (some (w, etag))
      → IsJson old
      → IsJson w
      → deep_equal old w ≡ true
      → begin su now q s ≡ (replied (not_modified (h ∷ hs)), s)
  begin-unchanged sp h hs old w etag s polls hex tag stored u v same =
      let tags : etag ≡ h ∷ hs =
        get_config-etag su.platform c.sub s.registry w etag stored
        ∙ sym (compute_etag-deep_equal su.platform old w u v same)
        ∙ tag in
      begin-conditional sp h hs w etag s polls hex stored
      ∙ ap (λ t. (replied (if text_eq (h ∷ hs) t then not_modified t else config_reply w t), s))
          tags
      ∙ rw (text_eq_refl (h ∷ hs)) refl
